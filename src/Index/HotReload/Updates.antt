-- ===== src/Index/HotReload/Updates.antt =====
-- What any updates leave of a registered configuration.
use chainkit.Prelude.{
  Bool-cases, List, Option-cases, Result-cases, String, [], ap, arith, eq_iff, inl, inr, length,
  length-append, ok, refl, some, sym, u64, u64_max, ℕ, ◌++◌, ◌+◌, ◌<◌, ◌==◌, ◌∙◌, ◌∷◌, ◌≡◌, ◌≤◌,
  nat_eq, string_eq, pair_eq,
}
use chainkit.Prelude.Int.{ℤ}
use mathlib.Core.Path.{subst}
use mathlib.Core.List.{append-nil, append_assoc}
use chainkit.HashMap
use chainkit.HashMap.{HashMap}
use chainkit.HashMap.Laws.{get-insert}
use chainkit.Index.HotReload.{
  ManagedConfig, ConfigWarning, validate, updated, update_config, update_with_source, Watch,
  ReloadRecord, manual,
}
use chainkit.Index.HotReload.Config.{ToValue, diff_configs}
use chainkit.Index.Config.{IndexerConfig}

module _ {J C : Type 0} (watch : Watch C) (json : ToValue J)
    (message : String → IndexerConfig → IndexerConfig → String) where
  abbrev pub run :
      HashMap String (ManagedConfig J C)
      → List (String × IndexerConfig × ℤ)
      → HashMap String (ManagedConfig J C)
  run configs [] = configs
  run configs ((id, new, now) ∷ us) = run (update_config watch json message configs id new now).1 us

  -- the sender after it has sent some versions
  abbrev pub send_all : C → List (ReloadRecord J) → C
  send_all sender [] = sender
  send_all sender (r ∷ rs) = send_all (watch.send sender r.version) rs

  send_all-append :
      (sender : C) (rs : List (ReloadRecord J)) (r : ReloadRecord J)
      → send_all sender (rs ++ r ∷ []) ≡ watch.send (send_all sender rs) r.version
  send_all-append sender [] r = refl
  send_all-append sender (q ∷ rs) r = send_all-append (watch.send sender q.version) rs r

  -- records whose versions count up from the one after a number
  abbrev pub Numbered : ℕ → List (ReloadRecord J) → Type 0
  Numbered v [] = Unit
  Numbered v (r ∷ rs) = (r.version ≡ v + 1) × Numbered (v + 1) rs

  Numbered-append :
      (v : ℕ) (rs : List (ReloadRecord J)) (r : ReloadRecord J)
      → Numbered v rs
      → r.version ≡ v + length rs + 1
      → Numbered v (rs ++ r ∷ [])
  Numbered-append v [] r n e = (omega (arith, e), tt)
  Numbered-append v (q ∷ rs) r n e = (n.0, Numbered-append (v + 1) rs r n.1 (omega (arith, e)))

  -- A configuration that has come from another one by updates, with the records of them.
  record Descends (m n : ManagedConfig J C) : Type 0 where
    pub chain : n.config.inner.chain ≡ m.config.inner.chain
    pub from_block : n.config.inner.from_block ≡ m.config.inner.from_block
    pub added : List (ReloadRecord J)
    pub history : n.history ≡ m.history ++ added
    pub version : n.config.version ≡ m.config.version + length added
    pub numbered : Numbered m.config.version added
    pub told : n.sender ≡ send_all m.sender added

  permitted :
      (old new : IndexerConfig) (ws : List ConfigWarning)
      → validate message old new ≡ ok ws
      → (new.chain ≡ old.chain) × (new.from_block ≡ old.from_block)
  unfolding validate
  permitted old new ws h = ground (arith, eq_iff old.chain new.chain)

  updated-Descends :
      (m n : ManagedConfig J C) (new : IndexerConfig) (now : ℤ) (ws : List ConfigWarning)
      → validate message n.config.inner new ≡ ok ws
      → n.config.version < u64_max
      → Descends m n
      → Descends m (updated watch json message n new now)
  unfolding updated update_with_source
  updated-Descends m n new now ws h fits d =
      let (c, f) = permitted n.config.inner new ws h in
      let r : ReloadRecord J = record {
        version = u64 (n.config.version + 1);
        diffs = diff_configs json n.config.inner new;
        applied_at = now;
        source = manual;
      } in
      record {
        chain = c ∙ d.chain;
        from_block = f ∙ d.from_block;
        added = d.added ++ r ∷ [];
        history = ap (λ rs. rs ++ r ∷ []) d.history ∙ append_assoc m.history d.added (r ∷ []);
        version = omega (arith, d.version, length-append d.added (r ∷ []));
        numbered =
            Numbered-append m.config.version d.added r d.numbered (omega (arith, d.version, fits));
        told = ap (λ w. watch.send w r.version) d.told ∙ sym (send_all-append m.sender d.added r);
      }

  grows :
      (m : ManagedConfig J C) (new : IndexerConfig) (now : ℤ)
      → (updated watch json message m new now).config.version ≤ m.config.version + 1
  unfolding updated update_with_source
  grows m new now = omega arith

  -- one update, of this configuration or of another one
  update-Descends :
      (configs : HashMap String (ManagedConfig J C)) (id : String) (m n : ManagedConfig J C)
      (j : String) (new : IndexerConfig) (now : ℤ)
      → HashMap.get configs id ≡ some n
      → n.config.version < u64_max
      → Descends m n
      → (n' : ManagedConfig J C) × (HashMap.get
            (update_config watch json message configs j new now).1
            id
          ≡ some n')
        × Descends m n'
        × (n'.config.version ≤ n.config.version + 1)
  unfolding update_config
  update-Descends configs id m n j new now e fits d = elim (Option-cases (HashMap.get configs j)) [
    | inl x ↦ rw (x, update_config) (n, e, d, omega arith)
    | inr (o, x) ↦ elim (Result-cases (validate message o.config.inner new)) [
      | inr (f, v) ↦ rw (x, update_config, v) (n, e, d, omega arith)
      | inl (ws, v) ↦ elim (Bool-cases (j == id)) [
        | inr y ↦ rw (x, update_config, v, get-insert, y) (n, e, d, omega arith)
        | inl y ↦
            let same : o ≡ n =
              cc (x, e, ap (HashMap.get configs) ((string_eq.same_iff j id).0 y)) in
            let permits : validate message n.config.inner new ≡ ok ws =
              ap (λ (k : ManagedConfig J C). validate message k.config.inner new) (sym same) ∙ v in
            rw (x, update_config, v, get-insert, y)
              (
                updated watch json message o new now,
                refl,
                subst (λ k. Descends m (updated watch json message k new now)) (sym same)
                    (updated-Descends m n new now ws permits fits d),
                subst
                    (λ (k : ManagedConfig J C).
                      (updated watch json message o new now).config.version ≤ k.config.version + 1)
                    same (grows o new now),
              )
      ]
    ]
  ]

  run-Descends :
      (configs : HashMap String (ManagedConfig J C)) (id : String) (m n : ManagedConfig J C)
      (us : List (String × IndexerConfig × ℤ))
      → HashMap.get configs id ≡ some n
      → n.config.version + length us ≤ u64_max
      → Descends m n
      → (n' : ManagedConfig J C) × (HashMap.get (run configs us) id ≡ some n') × Descends m n'
  run-Descends configs id m n [] e fits d = (n, e, d)
  run-Descends configs id m n ((j, new, now) ∷ us) e fits d =
      let (n', e', d', grown) = update-Descends configs id m n j new now e (omega arith) d in
      run-Descends (update_config watch json message configs j new now).1 id m n' us e'
        (omega arith) d'

  -- Whatever updates follow, of any configurations, a registered one keeps its chain and its first block,
  -- only adds records to its history, and its version grows by one for each of them: their versions count
  -- up from the one after the old version to the new one, and are sent to the watchers in this order, where
  -- the version can grow by the number of the updates.
  pub run_keeps :
      (configs : HashMap String (ManagedConfig J C)) (id : String) (m : ManagedConfig J C)
      (us : List (String × IndexerConfig × ℤ))
      → HashMap.get configs id ≡ some m
      → m.config.version + length us ≤ u64_max
      → (n : ManagedConfig J C) × (HashMap.get (run configs us) id ≡ some n)
        × (n.config.inner.chain ≡ m.config.inner.chain)
        × (n.config.inner.from_block ≡ m.config.inner.from_block)
        × (added : List (ReloadRecord J)) × (n.history ≡ m.history ++ added)
        × (n.config.version ≡ m.config.version + length added)
        × Numbered m.config.version added
        × (n.sender ≡ send_all m.sender added)
  run_keeps configs id m us e fits =
      let same : Descends m m = record {
        chain = refl;
        from_block = refl;
        added = [];
        history = sym (append-nil m.history);
        version = omega arith;
        numbered = tt;
        told = refl;
      } in
      let (n, found, d) = run-Descends configs id m m us e fits same in
      (n, found, d.chain, d.from_block, d.added, d.history, d.version, d.numbered, d.told)
