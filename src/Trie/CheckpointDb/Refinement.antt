-- ===== src/Trie/CheckpointDb/Refinement.antt =====
-- The database with checkpoints implements a map with a stack of saved maps.
use mathlib.Core.Path.{fun_ext}
use moola_fix.Common.{
  ℕ, ◌≡◌, refl, ap, subst, ◌∙◌, ◌⊎◌, inl, inr, true, false, Option, none, some, List, [], ◌∷◌, ok,
  ◌==◌, arith, Bool-cases, ==_iff, Option-cases,
}
use moola_fix.Common.Assoc.{lookup, lookup-insert, IsMap, insert-IsMap}
use moola_fix.Trie.CheckpointDb.{
  BatchDbOp, put_op, del_op, LevelDb, Checkpoint, CheckpointDb, checkpoint, dump, batch_ops,
  set_in_last, find, commit, revert, get, put, del, batch_loop, batch,
}
use moola_fix.Trie.CheckpointDb.Maps.{over, dump-IsMap, apply_ops-batch_ops, over-dump}
use moola_fix.Trie.CheckpointDb.Abstract.{
  View, update, apply_ops, IsLevelDb, Abstract, Call, checkpoint_call, commit_call, revert_call,
  get_call, del_call, put_call, batch_call, found, old_root, abstract_step, abstract_run, step_call,
  run_calls,
}

module _ {V Disk : Type 0} (level : LevelDb V Disk) where
  -- The map that the database shows.
  abbrev pub view_of : List (Checkpoint V) → Disk → View V
  view_of cps disk k = over (find k cps) (level.load k disk)

  -- The maps of changes show the current map, and below each checkpoint the map that was saved.
  abbrev pub Refines : List (Checkpoint V) → Disk → View V → List (View V × ℕ) → Type 0
  Refines [] disk current [] = view_of [] disk ≡ current
  Refines (cp ∷ cps) disk current ((view, root) ∷ saved) =
      (view_of (cp ∷ cps) disk ≡ current)
      × (cp.root ≡ root)
      × IsMap cp.key_value_map
      × Refines cps disk view saved
  Refines _ disk current _ = ⊥

  abbrev pub Sim : CheckpointDb V Disk → Abstract V → Type 0
  Sim db a = Refines db.checkpoints db.disk a.current a.saved

  Refines-view :
      (cps : List (Checkpoint V)) (disk : Disk) (current : View V) (saved : List (View V × ℕ))
      → Refines cps disk current saved
      → view_of cps disk ≡ current
  Refines-view [] disk current [] h = h
  Refines-view (cp ∷ cps) disk current ((view, root) ∷ saved) h = h.0
  Refines-view [] disk current (s ∷ saved) h = absurd h
  Refines-view (cp ∷ cps) disk current [] h = absurd h

  -- A change in the last map.
  set_in_last-Refines :
      (key : ℕ) (value : Option V) (cp : Checkpoint V) (cps : List (Checkpoint V)) (disk : Disk)
      (current : View V) (saved : List (View V × ℕ))
      → Refines (cp ∷ cps) disk current saved
      → Refines (set_in_last key value (cp ∷ cps)) disk (update key value current) saved
  unfolding set_in_last find
  set_in_last-Refines key value cp cps disk current [] h = absurd h
  set_in_last-Refines key value cp cps disk current ((view, root) ∷ saved) h =
      let (shown, same_root, is_map, rest) = h in
      (
        fun_ext
            (λ k. ground (arith, lookup-insert key k value cp.key_value_map, ap (λ f. f k) shown)),
        same_root,
        insert-IsMap key value cp.key_value_map is_map,
        rest,
      )

  module _ (laws : IsLevelDb level) where
    put-Sim :
        (key : ℕ) (v : V) (cps : List (Checkpoint V)) (disk : Disk) (current : View V)
        (saved : List (View V × ℕ))
        → Refines cps disk current saved
        → Sim
            (put level key v (record { checkpoints = cps; disk = disk }))
            (record { saved = saved; current = update key (some v) current })
    unfolding put find
    put-Sim key v [] disk current [] h =
        fun_ext (λ k. ground (arith, laws.load-store key v disk k, ap (λ f. f k) h))
    put-Sim key v (cp ∷ cps) disk current saved h =
        set_in_last-Refines key (some v) cp cps disk current saved h
    put-Sim key v [] disk current (s ∷ saved) h = absurd h

    del-Sim :
        (key : ℕ) (cps : List (Checkpoint V)) (disk : Disk) (current : View V)
        (saved : List (View V × ℕ))
        → Refines cps disk current saved
        → Sim
            (del level key (record { checkpoints = cps; disk = disk }))
            (record { saved = saved; current = update key none current })
    unfolding del find
    del-Sim key [] disk current [] h =
        fun_ext (λ k. ground (arith, laws.load-delete key disk k, ap (λ f. f k) h))
    del-Sim key (cp ∷ cps) disk current saved h =
        set_in_last-Refines key none cp cps disk current saved h
    del-Sim key [] disk current (s ∷ saved) h = absurd h

    batch_loop-Sim :
        (ops : List (BatchDbOp V)) (db : CheckpointDb V Disk) (a : Abstract V)
        → Sim db a
        → Sim (batch_loop level ops db) (record a { current = apply_ops ops a.current })
    unfolding batch_loop
    batch_loop-Sim [] db a h = h
    batch_loop-Sim (put_op key v ∷ ops) db a h =
        batch_loop-Sim ops (put level key v db)
          (record a { current = update key (some v) a.current })
          (put-Sim key v db.checkpoints db.disk a.current a.saved h)
    batch_loop-Sim (del_op key ∷ ops) db a h =
        batch_loop-Sim ops (del level key db) (record a { current = update key none a.current })
          (del-Sim key db.checkpoints db.disk a.current a.saved h)

    batch-Sim :
        (ops : List (BatchDbOp V)) (cps : List (Checkpoint V)) (disk : Disk) (current : View V)
        (saved : List (View V × ℕ))
        → Refines cps disk current saved
        → Sim
            (batch level ops (record { checkpoints = cps; disk = disk }))
            (record { saved = saved; current = apply_ops ops current })
    unfolding batch find
    batch-Sim ops [] disk current [] h =
        fun_ext (λ k. laws.load-apply_batch ops disk k ∙ ap (λ f. apply_ops ops f k) h)
    batch-Sim ops (cp ∷ cps) disk current saved h =
        batch_loop-Sim ops (record { checkpoints = cp ∷ cps; disk = disk })
          (record { current = current; saved = saved }) h
    batch-Sim ops [] disk current (s ∷ saved) h = absurd h

    -- Reading a key changes nothing that is shown.
    cached :
        (key : ℕ) (v : Option V) (cps : List (Checkpoint V)) (disk : Disk) (current : View V)
        (saved : List (View V × ℕ))
        → v ≡ current key
        → Refines cps disk current saved
        → Refines (set_in_last key v cps) disk current saved
    unfolding set_in_last
    cached key v [] disk current [] e h = h
    cached key v [] disk current (s ∷ saved) e h = absurd h
    cached key v (cp ∷ cps) disk current saved e h =
        subst (λ f. Refines (set_in_last key v (cp ∷ cps)) disk f saved)
          (fun_ext (λ k. same k (Bool-cases (key == k))))
          (set_in_last-Refines key v cp cps disk current saved h)
      where
        same :
            (k : ℕ)
            → ((key == k) ≡ true) ⊎ ((key == k) ≡ false)
            → update key v current k ≡ current k
        same k (inl there) = rw there (e ∙ ap current ((==_iff key k).0 there))
        same k (inr other) = rw other refl

    get-Sim :
        (key : ℕ) (db : CheckpointDb V Disk) (a : Abstract V)
        → Sim db a
        → ((get level key db).0 ≡ a.current key) × Sim (get level key db).1 a
    unfolding get
    get-Sim key db a h =
        let shown = ap (λ f. f key) (Refines-view db.checkpoints db.disk a.current a.saved h) in
        elim (Option-cases (find key db.checkpoints)) [
          | inl missing ↦
              let loaded : level.load key db.disk ≡ a.current key = rw missing at shown in
              rw (missing, get)
                (
                  loaded,
                  cached key (level.load key db.disk) db.checkpoints db.disk a.current a.saved
                      loaded h,
                )
          | inr (v, there) ↦ rw (there, get) (rw there at shown, h)
        ]

    -- What `commit` does, where there is a checkpoint.
    commit-Sim :
        (cp : Checkpoint V) (cps : List (Checkpoint V)) (disk : Disk) (current view : View V)
        (root : ℕ) (saved : List (View V × ℕ))
        → Refines (cp ∷ cps) disk current ((view, root) ∷ saved)
        → (db : CheckpointDb V Disk) × (commit level
              (record { checkpoints = cp ∷ cps; disk = disk })
            ≡ ok db)
          × Sim db (record { current = current; saved = saved })
    unfolding commit find
    commit-Sim cp [] disk current view root [] h =
        let (shown, same_root, is_map, rest) = h in
        (
          record { checkpoints = []; disk = level.apply_batch (batch_ops cp.key_value_map) disk },
          refl,
          fun_ext (λ k.
              laws.load-apply_batch (batch_ops cp.key_value_map) disk k
              ∙ apply_ops-batch_ops cp.key_value_map (λ j. level.load j disk) k is_map
              ∙ last_map (lookup k cp.key_value_map) (level.load k disk)
              ∙ ap (λ f. f k) shown),
        )
      where
        last_map :
            (entry : Option (Option V)) (below : Option V)
            → over entry below ≡ over (elim entry [ some v ↦ some v | none ↦ none ]) below
        last_map none below = refl
        last_map (some v) below = refl
    commit-Sim cp [] disk current view root (s ∷ saved) h = let (_, _, _, rest) = h in absurd rest
    commit-Sim cp (next ∷ cps) disk current view root [] h = let (_, _, _, rest) = h in absurd rest
    commit-Sim cp (next ∷ cps) disk current view root ((below, old) ∷ saved) h =
        let (shown, _, is_map, rest) = h in
        let (_, same_root, next_is_map, others) = rest in
        (
          record {
            checkpoints =
                record next { key_value_map = dump cp.key_value_map next.key_value_map } ∷ cps;
            disk = disk;
          },
          refl,
          (
            fun_ext (λ k.
                over-dump cp.key_value_map next.key_value_map k (find k cps) (level.load k disk)
                  is_map
                ∙ ap (λ f. f k) shown),
            same_root,
            dump-IsMap cp.key_value_map next.key_value_map next_is_map,
            others,
          ),
        )

    abbrev Agrees : Call V → CheckpointDb V Disk → Abstract V → Type 0
    Agrees call db a =
        ((step_call level call db).0 ≡ (abstract_step call a).0)
        × Sim (step_call level call db).1 (abstract_step call a).1

    commit-Agrees :
        (cps : List (Checkpoint V)) (disk : Disk) (current : View V) (saved : List (View V × ℕ))
        → Refines cps disk current saved
        → Agrees commit_call
            (record { checkpoints = cps; disk = disk })
            (record { current = current; saved = saved })
    unfolding step_call commit
    commit-Agrees [] disk current [] h = (refl, h)
    commit-Agrees [] disk current (s ∷ saved) h = absurd h
    commit-Agrees (cp ∷ cps) disk current [] h = absurd h
    commit-Agrees (cp ∷ cps) disk current ((view, root) ∷ saved) h =
        let (db, returned, shown) = commit-Sim cp cps disk current view root saved h in
        rw (returned, step_call) (refl, shown)

    revert-Agrees :
        (cps : List (Checkpoint V)) (disk : Disk) (current : View V) (saved : List (View V × ℕ))
        → Refines cps disk current saved
        → Agrees revert_call
            (record { checkpoints = cps; disk = disk })
            (record { current = current; saved = saved })
    unfolding step_call revert
    revert-Agrees [] disk current [] h = (refl, h)
    revert-Agrees [] disk current (s ∷ saved) h = absurd h
    revert-Agrees (cp ∷ cps) disk current [] h = absurd h
    revert-Agrees (cp ∷ cps) disk current ((view, root) ∷ saved) h =
        let (_, same_root, _, rest) = h in (ap old_root same_root, rest)

    -- A call has the answer that it has on the map with saved maps, and the database still shows it.
    step-Sim :
        (call : Call V) (db : CheckpointDb V Disk) (a : Abstract V) → Sim db a → Agrees call db a
    unfolding step_call checkpoint revert find
    step-Sim (checkpoint_call root) db a h =
        (refl, (Refines-view db.checkpoints db.disk a.current a.saved h, refl, tt, h))
    step-Sim commit_call db a h = commit-Agrees db.checkpoints db.disk a.current a.saved h
    step-Sim revert_call db a h = revert-Agrees db.checkpoints db.disk a.current a.saved h
    step-Sim (get_call key) db a h = let (same, rest) = get-Sim key db a h in (ap found same, rest)
    step-Sim (put_call key v) db a h =
        (refl, put-Sim key v db.checkpoints db.disk a.current a.saved h)
    step-Sim (del_call key) db a h = (refl, del-Sim key db.checkpoints db.disk a.current a.saved h)
    step-Sim (batch_call ops) db a h =
        (refl, batch-Sim ops db.checkpoints db.disk a.current a.saved h)

-- The answers to any calls in turn are those of the map with saved maps that the database shows, where
-- the store keeps the laws of a levelup store: a read gives the current map, a commit keeps it, a revert
-- gives the root of the last checkpoint and the map as it was there.
pub run_calls-abstract_run :
    {V Disk : Type 0} (level : LevelDb V Disk) (laws : IsLevelDb level) (calls : List (Call V))
    (db : CheckpointDb V Disk) (a : Abstract V)
    → Sim level db a
    → run_calls level calls db ≡ abstract_run calls a
unfolding run_calls
run_calls-abstract_run level laws [] db a h = refl
run_calls-abstract_run level laws (call ∷ calls) db a h =
    let (same, next) = step-Sim level laws call db a h in
    rw
      (
        same,
        run_calls-abstract_run level laws calls (step_call level call db).1 (abstract_step call a).1
            next,
      )
      refl
