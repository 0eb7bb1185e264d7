-- ===== src/Server/Put/Excess.antt =====
-- An upload with more bytes than its size.
use file_system_server.Base.{ℕ, ◌<◌, ◌≡◌, List, ◌++◌, true, length}
use file_system_server.Format.{err_bad_file_size}
use file_system_server.Os.{Recv, read_from, eintr, stream, FileSystem}
use file_system_server.Server.State.{Machine}
use file_system_server.Server.Response.{error, status_text}
use file_system_server.Server.Put.Stored.{IsAccepted}
use file_system_server.Server.Put.Upload.{Appends}

module _ (fs : FileSystem) (f : ℕ) (file : Appends fs f) where
  open fs use {Disk, close_file}
  open file use {content}

  -- The upload is refused, with an error response and a list of names as it was; or the one read that
  -- looks for another byte is interrupted, and the upload is accepted with bytes left to read.
  pub data Excess (xs : List (List ℕ)) (m : Machine Disk) (d : Disk) (out : Machine Disk)
      : Type 0 where
    refused :
        out.freed ≡ true
        → out.socket.sent ≡ m.socket.sent ++ status_text (error err_bad_file_size)
        → out.disk ≡ close_file f d
        → out.server_files ≡ m.server_files
        → Excess xs m d out
    missed :
        (rest left : List Recv)
        → read_from 1 rest ≡ eintr left
        → 0 < length (stream left)
        → out.socket.incoming ≡ left
        → IsAccepted fs m.client.filename xs m (close_file f d) out
        → Excess xs m d out
