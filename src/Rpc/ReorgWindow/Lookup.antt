-- ===== src/Rpc/ReorgWindow/Lookup.antt =====
-- What the window holds after a block is checked.
use chainkit.Prelude.{
  Bool, Bool-cases, Option-cases, String, [], ap, arith, false, filter, if◌then◌else◌, inl, inr,
  leb, ltb, map, none, not, refl, some, true, ℕ, ◌&&◌, ◌++◌, ◌-◌, ◌==◌, ◌∙◌, ◌∷◌, ◌≡◌, ◌⊎◌, nat_eq,
  string_eq, pair_eq,
}
use chainkit.HashMap
use chainkit.HashMap.{HashMap}
use chainkit.HashMap.Laws.{get-insert, get-filter_key}
use chainkit.Rpc.ReorgWindow.{
  ReorgConfig, ReorgDetector, ReorgEvent, trim_window, store, event_at, invalidate, check_block,
}

-- Whether height j falls out of a window with the tip n.
abbrev pub outside : ReorgConfig → ℕ → ℕ → Bool
outside config n j = leb config.window_size n && leb j (n - config.window_size)

get-trim_window :
    (config : ReorgConfig) (w : HashMap ℕ String) (n j : ℕ)
    → HashMap.get (trim_window config w n) j
      ≡ (if outside config n j then none else HashMap.get w j)
unfolding trim_window
get-trim_window config w n j =
    ground (arith, get-filter_key (λ k. ltb (n - config.window_size) k) w j)

module _ {C : Type 0} where
  get-store :
      (d : ReorgDetector C) (w : HashMap ℕ String) (n j : ℕ) (hash : String)
      → HashMap.get (store d w n hash).window j
        ≡ (if outside d.config n j then none else if n == j then some hash else HashMap.get w j)
  unfolding store
  get-store d w n j hash =
      get-trim_window d.config (HashMap.insert w n hash) n j
      ∙ ap (λ o. if outside d.config n j then none else o) (get-insert w n j hash)

  -- Whether a different hash is stored at the height.
  abbrev pub changed : ReorgDetector C → ℕ → String → Bool
  changed d n hash = elim (HashMap.get d.window n) [
    | none ↦ false
    | some stored ↦ not (stored == hash)
  ]

  -- The two ways that a check goes.
  pub check_block-cases :
      (d : ReorgDetector C) (n : ℕ) (hash : String)
      → ((changed d n hash ≡ false) × (check_block d n hash ≡ (none, [], store d d.window n hash)))
        ⊎ ((stored : String) × (changed d n hash ≡ true)
            × (HashMap.get d.window n ≡ some stored)
            × (check_block d n hash ≡ invalidate d n stored hash))
  unfolding check_block
  check_block-cases d n hash = elim (Option-cases (HashMap.get d.window n)) [
    | inl e ↦ inl (rw (e, changed) refl, rw (e, check_block) refl)
    | inr (stored, e) ↦ elim (Bool-cases (stored == hash)) [
      | inl same ↦ inl (rw (e, same, changed) refl, rw (e, same, check_block) refl)
      | inr differs ↦
          inr (stored, rw (e, differs, changed) refl, e, rw (e, differs, check_block) refl)
    ]
  ]

  -- After a check of block n, height j holds: nothing, if j falls out of the window below n; else
  -- the new hash, if j is n; else nothing, if j is above n and the hash at n has changed; and
  -- else what it held before.
  pub get-check_block :
      (d : ReorgDetector C) (n j : ℕ) (hash : String)
      → HashMap.get (check_block d n hash).2.window j ≡ (
          if outside d.config n j
          then none
          else if n == j
          then some hash
          else if changed d n hash && leb n j
          then none
          else HashMap.get d.window j)
  unfolding invalidate
  get-check_block d n j hash = elim (check_block-cases d n hash) [
    | inl (c, e) ↦ rw (c, e) (get-store d d.window n j hash)
    | inr (stored, c, g, e) ↦
        rw (c, e)
          (get-store d (filter (λ b. not (leb n b.0)) d.window) n j hash
            ∙ ap (λ o. if outside d.config n j then none else if n == j then some hash else o)
                (get-filter_key (λ k. not (leb n k)) d.window j ∙ ground arith))
  ]

  -- An event is reported, to every callback in turn and into the history, exactly if a different hash
  -- is stored at the height; otherwise no callback is called and the history stays.
  pub check_block_reports :
      (d : ReorgDetector C) (n : ℕ) (hash : String)
      → let (r, fired, d') = check_block d n hash in
        (changed d n hash ≡ false
          → (r ≡ none) × (fired ≡ []) × (d'.reorg_history ≡ d.reorg_history))
        × (changed d n hash ≡ true
            → (e : ReorgEvent) × (r ≡ some e)
              × (fired ≡ map (λ cb. (cb, e)) d.callbacks)
              × (d'.reorg_history ≡ d.reorg_history ++ e ∷ [])
              × (HashMap.get d.window n ≡ some e.old_hash)
              × (e.new_hash ≡ hash)
              × (e.fork_block ≡ n))
  unfolding invalidate event_at store
  check_block_reports d n hash = elim (check_block-cases d n hash) [
    | inl (c, e) ↦ rw (c, e) ((λ _. (refl, refl, refl)), λ absurd. cc)
    | inr (stored, c, g, e) ↦
        rw (c, e) ((λ absurd. cc), λ _. (event_at d n stored hash, refl, refl, refl, g, refl, refl))
  ]
