-- ===== src/Server/Put/Partial.antt =====
-- A size of which only a part has arrived: `recv_put_size` keeps it.
use file_system_server.Base.{
  ℕ, zero, suc, ◌+◌, ◌-◌, ◌≤◌, ◌≡◌, refl, sym, subst, ap, ◌∙◌, true, List, [], ◌∷◌, ◌++◌, arith,
  length, length-append, length-drop, drop, append-nil, append_assoc, ltb,
}
use file_system_server.Os.{
  Recv, weight, weight_pos, stream, pending, ending, shut, failing, arrived, resumed, ended, lost,
  waits, read_from_cases, FileSystem,
}
use file_system_server.Server.State.{Machine, size_len}
use file_system_server.Server.Put.{recv_put_size_loop}
use file_system_server.Server.Put.Size.{sizing, stored_at}

module _ (fs : FileSystem) where
  open fs use {Disk}

  -- The bytes known, with what the rest of the memory still holds.
  pub record SizeWaits (m : Machine Disk) (known : List ℕ) (want : ℕ) (out : Machine Disk)
      : Type 0 where
    pub zs : List ℕ
    pub result : out ≡ sizing fs m [] (known ++ zs) (length known)
    pub size : length zs ≡ want

  SizeWaits-same :
      (m : Machine Disk) (known known' : List ℕ) (want : ℕ) {out : Machine Disk}
      → known ≡ known'
      → SizeWaits m known want out
      → SizeWaits m known' want out
  SizeWaits-same m known known' want {out} e h = subst (λ k. SizeWaits m k want out) e h

  pub recv_put_size_loop-SizeWaits :
      (fuel want : ℕ) (m : Machine Disk) (known zs : List ℕ) (rs : List Recv)
      → weight rs ≤ fuel
      → ending rs ≡ pending
      → length known + (length (stream rs) + suc want) ≡ size_len
      → length zs ≡ length (stream rs) + suc want
      → SizeWaits m
          (known ++ stream rs)
          (suc want)
          (recv_put_size_loop fs fuel (sizing fs m rs (known ++ zs) (length known)))
  unfolding recv_put_size_loop
  recv_put_size_loop-SizeWaits zero want m known zs rs w p e z =
      absurd (omega (arith, weight_pos rs))
  recv_put_size_loop-SizeWaits (suc fuel) want m known zs rs w p e z =
      let short : ltb (length known) size_len ≡ true = ground arith in
      rw (short, recv_put_size_loop)
        (elim (read_from_cases (size_len - length known) rs (omega arith)) [
          | arrived b bs rest r s le less same ↦
              let ih =
                recv_put_size_loop-SizeWaits fuel want m (known ++ b ∷ bs)
                  (drop (suc (length bs)) zs) rest (omega arith) (same ∙ p)
                  (omega (
                    arith,
                    length-append known (b ∷ bs),
                    ap length s,
                    length-append bs (stream rest),
                  ))
                  (omega (
                    arith,
                    length-drop (suc (length bs)) zs,
                    ap length s,
                    length-append bs (stream rest),
                  )) in
              rw (r, recv_put_size_loop)
                (SizeWaits-same m ((known ++ b ∷ bs) ++ stream rest) (known ++ stream rs) (suc want)
                  (append_assoc known (b ∷ bs) (stream rest) ∙ ap (λ q. known ++ q) s)
                  (subst
                    (λ o.
                      SizeWaits m ((known ++ b ∷ bs) ++ stream rest) (suc want)
                        (recv_put_size_loop fs fuel o))
                    (stored_at fs m known zs b bs rest
                      (omega (arith, ap length s, length-append bs (stream rest))))
                    ih))
          | resumed rest r s less same ↦
              rw (r, recv_put_size_loop)
                (SizeWaits-same m (known ++ stream rest) (known ++ stream rs) (suc want)
                  (ap (λ k. known ++ k) s)
                  (recv_put_size_loop-SizeWaits fuel want m known zs rest (omega arith) (same ∙ p)
                    (omega (arith, ap length s)) (omega (arith, ap length s))))
          | ended r s x ↦ absurd (shut_pending (sym x ∙ p))
          | lost rest r s x ↦ absurd (failing_pending (sym x ∙ p))
          | waits r s ↦
              rw (r, recv_put_size_loop)
                (SizeWaits-same m known (known ++ stream rs) (suc want)
                  (sym (append-nil known) ∙ ap (λ k. known ++ stream k) (sym s))
                  (record {
                    zs = zs;
                    result = refl;
                    size = omega (arith, ap (λ q. length (stream q)) s);
                  }))
        ])
    where
      shut_pending : shut ≡ pending → ⊥
      shut_pending e = cc

      failing_pending : failing ≡ pending → ⊥
      failing_pending e = cc
