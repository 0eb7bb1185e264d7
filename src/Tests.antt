-- ===== src/Tests.antt =====
-- A small disk and a connection on it, on which the library is run.
pub mod Store
pub mod Wire
pub mod Serve
pub mod Talk
pub mod Remove
pub mod Loop
pub mod Kernels
pub mod Run
pub mod Sessions
pub mod Paced
pub mod Memory
use file_system_server.Base.{
  ℕ, ◌+◌, ◌≡◌, refl, Bool, true, false, List, [], ◌∷◌, ◌++◌, Option, none, some, length, take, drop,
  replicate, arith,
}
use file_system_server.Common.{put, get}
use file_system_server.EventLoop.{event_read, event_write}
use file_system_server.Os.{Recv, Send, FileSystem}
use file_system_server.Server.{ConnState, recv_put_data, send_get_data, Machine, client_create}
use file_system_server.Collections.Vector.{Vector}
use file_system_server.Server.Names.Laws.{Stores}
use file_system_server.Server.Put.Upload.{Appends}
use file_system_server.Server.Get.Download.{Readable}

-- A disk with one file, which every path names.
abbrev pub one_file : FileSystem
one_file = record {
  Disk = List ℕ;
  open_write = λ path d. (some 9, []);
  open_read = λ path d. (some 9, d);
  fstat_size = λ f d. some (length d);
  pread = λ f n off d. some (take n (drop off d));
  pwrite = λ f bs off d. (some (length bs), d ++ bs);
  close_file = λ f d. d;
  unlink = λ path d. (true, []);
}

abbrev pub one_file-Appends : Appends one_file 9
one_file-Appends = record { content = λ d. d; appended = λ bs d. (refl, refl) }

abbrev pub one_file-Readable : Readable one_file 9
one_file-Readable = record { content = λ d. d; reads = λ n off d. refl }

-- A connection in a state, with what its socket has in store. One byte of a file of four is through.
abbrev pub connection : ConnState → ℕ → List Recv → List Send → List ℕ → Machine (List ℕ)
connection st events rs outs d = record {
  client = record {
    fd = 5;
    state = st;
    request_verb = put;
    header_buf = [];
    filename = 97 ∷ [];
    file_fd = some 9;
    size_buf = 4 ∷ replicate 7 0;
    file_size = 4;
    bytes_transferred = 1;
    list_buf = [];
    list_len = 0;
    list_sent = 0;
    simple_response_buf = [];
    simple_response_len = 0;
    simple_response_sent = 0;
  };
  freed = false;
  socket = record { incoming = rs; outcomes = outs; sent = [] };
  interest = some events;
  disk = d;
  server_files = record { cells = replicate 8 none; size = 0; capacity = 8 };
  fd_to_client = record { entries = []; capacity = 8 };
  temp_dir = b'/' ∷ b't' ∷ [];
  memory = true;
}

-- A list with one name.
abbrev pub name_b : Vector (List ℕ)
name_b = record { cells = some (98 ∷ []) ∷ replicate 7 none; size = 1; capacity = 8 }

pub name_b-Stores : Stores name_b ((98 ∷ []) ∷ [])
name_b-Stores = record {
  holds = record { live = refl; space = refl; fits = omega arith; positive = omega arith };
  once = (tt, tt);
}
