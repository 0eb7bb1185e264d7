-- ===== src/Server/Put/Fuel.antt =====
-- The loops of an upload: fuel beyond the arrivals changes nothing.
use file_system_server.Base.{
  ℕ, zero, suc, ◌-◌, ◌≤◌, ◌<◌, ◌≡◌, refl, ◌∷◌, arith, length, ltb, ltb→lt, Bool-cases, inl, inr,
}
use file_system_server.Os.{
  weight, weight_pos, arrived, resumed, ended, lost, waits, read_from_cases, FileSystem,
}
use file_system_server.Server.State.{Machine, expected_size, size_len}
use file_system_server.Server.Put.{
  with_incoming, bytes_to_read, pwrite_upload, all_written, recv_put_data_loop, size_bytes_read,
  recv_put_size_loop,
}

module _ (fs : FileSystem) where
  open fs use {Disk}

  pub some_bytes :
      (m : Machine Disk)
      → m.client.bytes_transferred < expected_size m.client
      → 0 < bytes_to_read fs m.client
  some_bytes m lt = ground arith

  pub data_loop-fuel :
      (f g : ℕ) (m : Machine Disk)
      → weight m.socket.incoming ≤ f
      → weight m.socket.incoming ≤ g
      → recv_put_data_loop fs f m ≡ recv_put_data_loop fs g m
  unfolding recv_put_data_loop
  data_loop-fuel zero g m v w = absurd (omega (arith, weight_pos m.socket.incoming))
  data_loop-fuel (suc f) zero m v w = absurd (omega (arith, weight_pos m.socket.incoming))
  data_loop-fuel (suc f) (suc g) m v w =
      elim (Bool-cases (ltb m.client.bytes_transferred (expected_size m.client))) [
        | inr full ↦ rw (full, recv_put_data_loop) refl
        | inl more ↦
            rw (more, recv_put_data_loop)
              (elim (read_from_cases (bytes_to_read fs m.client) m.socket.incoming
                (some_bytes m (ltb→lt m.client.bytes_transferred (expected_size m.client) more))) [
                  | arrived b bs rest r s le less same ↦
                      elim (Bool-cases
                        (all_written fs (pwrite_upload fs (b ∷ bs) m).0 (suc (length bs)))) [
                          | inl all ↦
                              rw (r, recv_put_data_loop, all)
                                (data_loop-fuel f g _ (omega arith) (omega arith))
                          | inr part ↦ rw (r, recv_put_data_loop, part) refl
                        ]
                  | resumed rest r s less same ↦
                      rw (r, recv_put_data_loop)
                        (data_loop-fuel f g (with_incoming rest m) (omega arith) (omega arith))
                  | ended r s x ↦ rw (r, recv_put_data_loop) refl
                  | lost rest r s x ↦ rw (r, recv_put_data_loop) refl
                  | waits r s ↦ rw (r, recv_put_data_loop) refl
                ])
      ]

  pub size_loop-fuel :
      (f g : ℕ) (m : Machine Disk)
      → weight m.socket.incoming ≤ f
      → weight m.socket.incoming ≤ g
      → recv_put_size_loop fs f m ≡ recv_put_size_loop fs g m
  unfolding recv_put_size_loop
  size_loop-fuel zero g m v w = absurd (omega (arith, weight_pos m.socket.incoming))
  size_loop-fuel (suc f) zero m v w = absurd (omega (arith, weight_pos m.socket.incoming))
  size_loop-fuel (suc f) (suc g) m v w =
      elim (Bool-cases (ltb m.client.bytes_transferred size_len)) [
        | inr full ↦ rw (full, recv_put_size_loop) refl
        | inl more ↦
            let lt = ltb→lt m.client.bytes_transferred size_len more in
            rw (more, recv_put_size_loop)
              (elim (read_from_cases (size_len - m.client.bytes_transferred) m.socket.incoming
                (omega arith)) [
                  | arrived b bs rest r s le less same ↦
                      rw (r, recv_put_size_loop)
                        (size_loop-fuel f g (size_bytes_read fs (b ∷ bs) (with_incoming rest m))
                          (omega arith) (omega arith))
                  | resumed rest r s less same ↦
                      rw (r, recv_put_size_loop)
                        (size_loop-fuel f g (with_incoming rest m) (omega arith) (omega arith))
                  | ended r s x ↦ rw (r, recv_put_size_loop) refl
                  | lost rest r s x ↦ rw (r, recv_put_size_loop) refl
                  | waits r s ↦ rw (r, recv_put_size_loop) refl
                ])
      ]
