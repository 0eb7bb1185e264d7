-- ===== src/Server/Put.antt =====
-- server.c, the upload: the size of the file, then its bytes.
pub mod Upload
pub mod Outcome
pub mod Size
pub mod Partial
pub mod Fuel
pub mod Excess
pub mod Stored
pub mod Rounds
use file_system_server.Base.{
  ℕ, zero, suc, ◌+◌, ◌-◌, Bool, true, false, List, [], ◌∷◌, Option, none, some, length, set_range,
  ltb, ◌==◌, if◌then◌else◌,
}
use file_system_server.Format.{err_bad_file_size}
use file_system_server.Os.{
  Recv, ReadResult, got, eof, eintr, eagain, failed, read_from, weight, Socket, FileSystem,
}
use file_system_server.Server.State.{
  recv_put_data, Client, Machine, expected_size, buffer_size, size_len, filepath,
}
use file_system_server.Server.Names.{add_file_to_list}
use file_system_server.Server.Response.{Status, ok, error, prepare_and_send_response}

abbrev pub with_incoming : {Disk : Type 0} → List Recv → Machine Disk → Machine Disk
with_incoming rs m = record m { socket = record m.socket { incoming = rs } }

module _ (fs : FileSystem) where
  open fs use {Disk, open_write, pwrite, close_file}

  abbrev pub bad_file_size : Machine Disk → Machine Disk
  bad_file_size m = prepare_and_send_response fs (error err_bad_file_size) m

  -- `close(client->file_fd); client->file_fd = -1`.
  abbrev pub close_upload : Machine Disk → Machine Disk
  close_upload m = elim m.client.file_fd [
    | none ↦ m
    | some f ↦ record m { disk = close_file f m.disk; client = record m.client { file_fd = none } }
  ]

  abbrev pub stored_ok : Machine Disk → Machine Disk
  stored_ok m =
      prepare_and_send_response fs ok
        (record m { server_files = add_file_to_list m.memory m.server_files m.client.filename })

  -- The file has its size: one more byte from the client would be too many.
  unfoldable pub extra_checked : ReadResult → Machine Disk → Machine Disk
  extra_checked (got bs rest) m = bad_file_size (with_incoming rest m)
  extra_checked (eof rest) m = stored_ok (with_incoming rest m)
  extra_checked (eintr rest) m = stored_ok (with_incoming rest m)
  extra_checked (eagain rest) m = stored_ok (with_incoming rest m)
  extra_checked (failed rest) m = stored_ok (with_incoming rest m)

  -- Behind the loop of `recv_put_data`.
  unfoldable pub data_received : Machine Disk → Machine Disk
  unfolding extra_checked
  data_received m =
      if m.client.bytes_transferred == expected_size m.client
      then (let m' = close_upload m in extra_checked (read_from 1 m'.socket.incoming) m')
      else m

  -- The bytes that the next read asks for.
  abbrev pub bytes_to_read : Client → ℕ
  bytes_to_read c =
      if ltb (expected_size c - c.bytes_transferred) buffer_size
      then expected_size c - c.bytes_transferred
      else buffer_size

  -- `pwrite(client->file_fd, buffer, n_read, client->bytes_transferred)`.
  abbrev pub pwrite_upload : List ℕ → Machine Disk → Option ℕ × Disk
  pwrite_upload bs m = elim m.client.file_fd [
    | none ↦ (none, m.disk)
    | some f ↦ pwrite f bs m.client.bytes_transferred m.disk
  ]

  -- Whether `n_written == n_read`.
  abbrev pub all_written : Option ℕ → ℕ → Bool
  all_written none n = false
  all_written (some k) n = k == n

  abbrev pub chunk_stored : List ℕ → Disk → Machine Disk → Machine Disk
  chunk_stored bs d m = record m {
    disk = d;
    client = record m.client { bytes_transferred = m.client.bytes_transferred + length bs };
  }

  unfoldable pub recv_put_data_loop : ℕ → Machine Disk → Machine Disk
  unfolding data_received
  recv_put_data_loop zero m = m
  recv_put_data_loop (suc fuel) m = elim (ltb m.client.bytes_transferred (expected_size m.client)) [
    | false ↦ data_received m
    | true ↦ elim (read_from (bytes_to_read m.client) m.socket.incoming) [
      | got bs rest ↦ elim (all_written (pwrite_upload bs m).0 (length bs)) [
        | true ↦
            recv_put_data_loop fuel (chunk_stored bs (pwrite_upload bs m).1 (with_incoming rest m))
        | false ↦
            bad_file_size
              (close_upload (record (with_incoming rest m) { disk = (pwrite_upload bs m).1 }))
      ]
      | eintr rest ↦ recv_put_data_loop fuel (with_incoming rest m)
      | eagain rest ↦ data_received (with_incoming rest m)
      | failed rest ↦ bad_file_size (close_upload (with_incoming rest m))
      | eof rest ↦ bad_file_size (close_upload (with_incoming rest m))
    ]
  ]

  unfoldable pub recv_put_data_handler : Machine Disk → Machine Disk
  unfolding recv_put_data_loop
  recv_put_data_handler m = recv_put_data_loop (weight m.socket.incoming) m

  -- The size is complete: the file is opened and emptied.
  abbrev pub upload_opened : Option ℕ × Disk → Machine Disk → Machine Disk
  upload_opened (none, d) m =
      bad_file_size (record m { disk = d; client = record m.client { file_fd = none } })
  upload_opened (some f, d) m =
      recv_put_data_handler (record m {
        disk = d;
        client = record m.client { file_fd = some f; state = recv_put_data };
      })

  unfoldable pub size_received : Machine Disk → Machine Disk
  unfolding recv_put_data_handler
  size_received m =
      let m' = record m { client = record m.client { bytes_transferred = 0 } } in
      upload_opened (open_write (filepath m') m'.disk) m'

  -- `read` into `((char *)&client->expected_size) + client->bytes_transferred`.
  abbrev pub size_bytes_read : List ℕ → Machine Disk → Machine Disk
  size_bytes_read bs m = record m {
    client = record m.client {
      size_buf = set_range m.client.size_buf m.client.bytes_transferred bs;
      bytes_transferred = m.client.bytes_transferred + length bs;
    };
  }

  unfoldable pub recv_put_size_loop : ℕ → Machine Disk → Machine Disk
  unfolding size_received
  recv_put_size_loop zero m = m
  recv_put_size_loop (suc fuel) m = elim (ltb m.client.bytes_transferred size_len) [
    | false ↦ size_received m
    | true ↦ elim (read_from (size_len - m.client.bytes_transferred) m.socket.incoming) [
      | got bs rest ↦ recv_put_size_loop fuel (size_bytes_read bs (with_incoming rest m))
      | eintr rest ↦ recv_put_size_loop fuel (with_incoming rest m)
      | eagain rest ↦ with_incoming rest m
      | failed rest ↦ bad_file_size (with_incoming rest m)
      | eof rest ↦ bad_file_size (with_incoming rest m)
    ]
  ]

  unfoldable pub recv_put_size_handler : Machine Disk → Machine Disk
  unfolding recv_put_size_loop
  recv_put_size_handler m = recv_put_size_loop (weight m.socket.incoming) m
