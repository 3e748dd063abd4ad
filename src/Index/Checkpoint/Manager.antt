-- ===== src/Index/Checkpoint/Manager.antt =====
-- How often the manager saves.
use chainkit.Prelude.{
  Bool-cases, List, String, [], ap, arith, inl, inr, leb, length, ok, refl, suc, u64, u64_max, ℕ,
  ◌*◌, ◌+◌, ◌<◌, ◌∷◌, ◌≡◌,
}
use chainkit.Prelude.Int.{ℤ}
use chainkit.Index.Checkpoint.{Checkpoint, CheckpointStore, CheckpointManager, current, maybe_save}

-- A processed block: its number, its hash and the time.
abbrev pub Processed : Type 0
Processed = ℕ × String × ℤ

module _ {S : Type 0} (ops : CheckpointStore S) where
  -- One `maybe_save` for each block; the index loop stops at the first error, a run that never
  -- fails does not.
  pub save_all : CheckpointManager S → List Processed → CheckpointManager S
  save_all m [] = m
  save_all m ((number, hash, now) ∷ rest) = save_all (maybe_save ops m number hash now).1 rest

  -- The store never fails, and `written` counts its saves.
  pub record Writes (written : S → ℕ) : Type 0 where
    pub works : (s : S) (cp : Checkpoint) → (ops.save s cp).0 ≡ ok tt
    pub counts : (s : S) (cp : Checkpoint) → written (ops.save s cp).1 ≡ suc (written s)

  -- `maybe_save` on such a store: the counter goes round from 0 to the interval, and a save is made
  -- as it comes back to 0.
  maybe_save_counter :
      (written : S → ℕ) (m : CheckpointManager S) (number : ℕ) (hash : String) (now : ℤ)
      → Writes written
      → m.counter < m.save_interval
      → m.save_interval < u64_max
      → let m' = (maybe_save ops m number hash now).1 in
        (m'.save_interval ≡ m.save_interval)
        × (m'.counter < m.save_interval)
        × (written m'.store * m.save_interval + m'.counter
            ≡ written m.store * m.save_interval + m.counter + 1)
  unfolding maybe_save
  maybe_save_counter written m number hash now w h r =
      let cp = current ops m number hash now in
      elim (Bool-cases (leb m.save_interval (u64 (m.counter + 1)))) [
        | inl e ↦
            rw (e, w.works m.store cp)
              (
                refl,
                ground arith,
                ground (arith, ap (λ (k : ℕ). k * m.save_interval) (w.counts m.store cp)),
              )
        | inr e ↦ rw e (refl, ground arith, ground arith)
      ]

  -- On a store that works, n blocks make one save for each `save_interval` of them, and the counter
  -- holds the remainder, whatever it was: no block is left out of the count.
  save_all_conserves :
      (written : S → ℕ) (m : CheckpointManager S) (blocks : List Processed)
      → Writes written
      → m.counter < m.save_interval
      → m.save_interval < u64_max
      → let last = save_all m blocks in
        (last.counter < m.save_interval)
        × (written last.store * m.save_interval + last.counter
            ≡ written m.store * m.save_interval + m.counter + length blocks)
  unfolding save_all
  save_all_conserves written m [] w h r = (h, omega arith)
  save_all_conserves written m ((number, hash, now) ∷ rest) w h r =
      let (same, below, step) = maybe_save_counter written m number hash now w h r in
      let m' = (maybe_save ops m number hash now).1 in
      let (a, b) = save_all_conserves written m' rest w (omega arith) (omega arith) in
      (rw same at a, omega (arith, step, rw same at b))
