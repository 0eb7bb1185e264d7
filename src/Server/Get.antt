-- ===== src/Server/Get.antt =====
-- server.c, the download and the list: what is sent behind the status line.
pub mod Download
pub mod Whole
use file_system_server.Base.{
  ℕ, zero, suc, ◌+◌, ◌-◌, ◌%◌, ◌^◌, Bool, true, false, List, [], ◌∷◌, Option, none, some, length,
  take, drop, to_bytes, ltb, ◌==◌, if◌then◌else◌,
}
use file_system_server.Format.{err_no_such_file}
use file_system_server.EventLoop.{event_write}
use file_system_server.Os.{
  Socket, FileSystem, write, wrote, would_block, write_failed, write_interrupted,
}
use file_system_server.Server.State.{
  send_get_data, Client, Machine, buffer_size, size_len, filepath, modify_event_loop,
  close_and_cleanup,
}
use file_system_server.Server.Response.{
  ok, error, prepare_and_send_response, response_left, response_advanced, finish,
}

module _ (fs : FileSystem) where
  open fs use {Disk, open_read, fstat_size, pread, close_file}

  abbrev pub no_such_file : Machine Disk → Machine Disk
  no_such_file m = prepare_and_send_response fs (error err_no_such_file) m

  -- The result of `fstat`, on the open file `f`.
  abbrev pub size_known : ℕ → Option ℕ → Machine Disk → Machine Disk
  size_known f none m =
      no_such_file
        (record m { disk = close_file f m.disk; client = record m.client { file_fd = none } })
  size_known f (some size) m = prepare_and_send_response fs ok (record m {
    client = record m.client { file_fd = some f; file_size = size; bytes_transferred = 0 };
  })

  abbrev pub download_opened : Option ℕ × Disk → Machine Disk → Machine Disk
  download_opened (none, d) m =
      no_such_file (record m { disk = d; client = record m.client { file_fd = none } })
  download_opened (some f, d) m = size_known f (fstat_size f d) (record m { disk = d })

  unfoldable pub start_send_get : Machine Disk → Machine Disk
  start_send_get m = download_opened (open_read (filepath m) m.disk) m

  abbrev pub size_filled : Machine Disk → Machine Disk
  size_filled m = record m {
    client = record m.client {
      simple_response_buf = to_bytes size_len m.client.file_size;
      simple_response_len = size_len;
      simple_response_sent = 0;
    };
  }

  -- The first lines of `send_get_size`: an empty response buffer is filled with the size.
  abbrev pub size_prepared : Machine Disk → Machine Disk
  size_prepared m = if m.client.simple_response_len == 0 then size_filled m else m

  -- All of the size is out.
  abbrev pub size_sent : Machine Disk → Machine Disk
  size_sent m = modify_event_loop event_write (record m {
    client = record m.client {
      state = send_get_data;
      simple_response_len = 0;
      simple_response_sent = 0;
    };
  })

  unfoldable pub write_size : Machine Disk → Machine Disk
  write_size m = elim (write (response_left m.client) m.socket) [
    | would_block s ↦ record m { socket = s }
    | write_failed s ↦ close_and_cleanup fs (record m { socket = s })
    | write_interrupted s ↦ close_and_cleanup fs (record m { socket = s })
    | wrote n s ↦
        if m.client.simple_response_sent + n == m.client.simple_response_len
        then size_sent (response_advanced n s m)
        else response_advanced n s m
  ]

  unfoldable pub send_get_size_handler : Machine Disk → Machine Disk
  unfolding write_size
  send_get_size_handler m = write_size (size_prepared m)

  abbrev pub read_len : Client → ℕ
  read_len c =
      if ltb (c.file_size - c.bytes_transferred) buffer_size
      then c.file_size - c.bytes_transferred
      else buffer_size

  -- `pread(client->file_fd, buffer, read_len, client->bytes_transferred)`, and the empty list for a
  -- result that is not positive.
  abbrev pub pread_download : Machine Disk → List ℕ
  pread_download m = elim m.client.file_fd [
    | none ↦ []
    | some f ↦ elim (pread f (read_len m.client) m.client.bytes_transferred m.disk) [
      | none ↦ []
      | some bs ↦ bs
    ]
  ]

  abbrev pub chunk_sent : ℕ → Socket → Machine Disk → Machine Disk
  chunk_sent n s m = record m {
    client = record m.client { bytes_transferred = m.client.bytes_transferred + n };
    socket = s;
  }

  -- The fuel bounds the writes that the socket can serve.
  unfoldable pub send_get_data_loop : ℕ → Machine Disk → Machine Disk
  send_get_data_loop zero m = m
  send_get_data_loop (suc fuel) m = elim (ltb m.client.bytes_transferred m.client.file_size) [
    | false ↦ (if m.client.bytes_transferred == m.client.file_size then finish fs m else m)
    | true ↦ elim (pread_download m) [
      | [] ↦ close_and_cleanup fs m
      | b ∷ bs ↦ elim (write (b ∷ bs) m.socket) [
        | would_block s ↦ record m { socket = s }
        | write_failed s ↦ close_and_cleanup fs (record m { socket = s })
        | write_interrupted s ↦ close_and_cleanup fs (record m { socket = s })
        | wrote n s ↦ elim (ltb n (suc (length bs))) [
          | true ↦ chunk_sent n s m
          | false ↦ send_get_data_loop fuel (chunk_sent n s m)
        ]
      ]
    ]
  ]

  unfoldable pub send_get_data_handler : Machine Disk → Machine Disk
  unfolding send_get_data_loop
  send_get_data_handler m = send_get_data_loop (suc (suc (length m.socket.outcomes))) m

  -- The bytes that `send_list_data` has left.
  abbrev pub list_left : Client → List ℕ
  list_left c = take (c.list_len - c.list_sent) (drop c.list_sent c.list_buf)

  abbrev pub list_advanced : ℕ → Socket → Machine Disk → Machine Disk
  list_advanced n s m = record m {
    client = record m.client { list_sent = m.client.list_sent + n };
    socket = s;
  }

  unfoldable pub send_list_data_handler : Machine Disk → Machine Disk
  send_list_data_handler m = elim (write (list_left m.client) m.socket) [
    | would_block s ↦ record m { socket = s }
    | write_failed s ↦ close_and_cleanup fs (record m { socket = s })
    | write_interrupted s ↦ close_and_cleanup fs (record m { socket = s })
    | wrote n s ↦
        if m.client.list_sent + n == m.client.list_len
        then finish fs (list_advanced n s m)
        else list_advanced n s m
  ]
