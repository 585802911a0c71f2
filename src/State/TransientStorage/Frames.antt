-- ===== src/State/TransientStorage/Frames.antt =====
-- The frames of a call stack over transientStorage.ts: `checkpoint` on entry, `commit` or `revert` on
-- the way out, and writes and further frames in between.
use moola_fix.Common.{
  ℕ, ◌-◌, ◌≡◌, refl, sym, ap, ◌∙◌, List, [], ◌∷◌, ◌++◌, ok, ok-injective, subst, arith, length,
  drop, length-append, drop-append_length,
}
use mathlib.Core.List.{append_assoc}
use moola_fix.State.TransientStorage.{
  Buffer, Modification, TransientStorage, get, put, commit, checkpoint, undo_all, revert,
}
use moola_fix.State.TransientStorage.Journal.{
  Storage, Sim, Sim-refl, Sim-trans, undo_all-Sim, undo_all-append, undo-put,
}

-- What can happen between the entry of a frame and its end.
pub data Run : TransientStorage → TransientStorage → Type 0 where
  start : {s : TransientStorage} → Run s s
  write :
      {s t u : TransientStorage} (addr key key_len : ℕ) (value : Buffer)
      → Run s t
      → put addr key key_len value t ≡ ok u
      → Run s u
  committed :
      {s t u v : TransientStorage} → Run s t → Run (checkpoint t) u → commit u ≡ ok v → Run s v
  reverted :
      {s t u v : TransientStorage} → Run s t → Run (checkpoint t) u → revert u ≡ ok v → Run s v

-- The state `t` has grown out of `s`: its journal is that of `s` under some newer modifications,
-- which undone bring back the values of `s`.
pub record Extends (s t : TransientStorage) : Type 0 where
  pub same_indices : t.indices ≡ s.indices
  pub newer : List Modification
  pub journal_lem : t.journal ≡ newer ++ s.journal
  pub restored : Storage
  pub undone : undo_all (length newer) (newer ++ s.journal) t.storage ≡ ok restored
  pub back : Sim s.storage restored

Extends-put :
    (addr key key_len : ℕ) (value : Buffer) (s t u : TransientStorage)
    → Extends s t
    → put addr key key_len value t ≡ ok u
    → Extends s u
unfolding undo_all
Extends-put addr key key_len value s t u h e =
    let (m, pushed, kept, before, undone, sim) = undo-put addr key key_len value t e in
    let (v, undone', sim') =
      undo_all-Sim (length h.newer) (h.newer ++ s.journal) t.storage before h.restored sim
        h.undone in
    record {
      same_indices = kept ∙ h.same_indices;
      newer = m ∷ h.newer;
      journal_lem = pushed ∙ ap (◌∷◌ m) h.journal_lem;
      restored = v;
      undone = rw undone undone';
      back = Sim-trans s.storage h.restored v h.back sim';
    }

-- What `revert` does at the end of a frame.
revert-Extends :
    (s u : TransientStorage)
    → Extends (checkpoint s) u
    → (v : TransientStorage) × (revert u ≡ ok v)
      × (v.journal ≡ s.journal)
      × (v.indices ≡ s.indices)
      × Sim s.storage v.storage
unfolding revert checkpoint
revert-Extends s u h =
    let count : length u.journal - length s.journal ≡ length h.newer =
      rw h.journal_lem (omega (arith, length-append h.newer s.journal)) in
    let rest : drop (length h.newer) u.journal ≡ s.journal =
      rw h.journal_lem (drop-append_length h.newer s.journal (length h.newer) refl) in
    let back : undo_all (length h.newer) u.journal u.storage ≡ ok h.restored =
      rw h.journal_lem h.undone in
    (
      record { storage = h.restored; journal = s.journal; indices = s.indices },
      rw (h.same_indices, revert) (rw (count, rest, back)),
      refl,
      refl,
      h.back,
    )

Extends-revert :
    (s t u v : TransientStorage)
    → Extends s t
    → Extends (checkpoint t) u
    → revert u ≡ ok v
    → Extends s v
Extends-revert s t u v h k e =
    let (v', e', journal', indices', sim) = revert-Extends t u k in
    let same : v' ≡ v = ok-injective v' v (sym e' ∙ e) in
    let (w, undone', sim') =
      undo_all-Sim (length h.newer) (h.newer ++ s.journal) t.storage v'.storage h.restored sim
        h.undone in
    subst (Extends s) same (record {
      same_indices = indices' ∙ h.same_indices;
      newer = h.newer;
      journal_lem = journal' ∙ h.journal_lem;
      restored = w;
      undone = undone';
      back = Sim-trans s.storage h.restored w h.back sim';
    })

commit-Extends :
    (s u : TransientStorage)
    → Extends (checkpoint s) u
    → commit u ≡ ok (record u { indices = s.indices })
unfolding commit checkpoint
commit-Extends s u h = rw (h.same_indices, commit)

Extends-commit :
    (s t u v : TransientStorage)
    → Extends s t
    → Extends (checkpoint t) u
    → commit u ≡ ok v
    → Extends s v
unfolding checkpoint
Extends-commit s t u v h k e =
    let same : record u { indices = t.indices } ≡ v =
      ok-injective _ v (sym (commit-Extends t u k) ∙ e) in
    let (w, undone', sim') =
      undo_all-Sim (length h.newer) (h.newer ++ s.journal) t.storage k.restored h.restored k.back
        h.undone in
    let inner : undo_all (length k.newer) (k.newer ++ (h.newer ++ s.journal)) u.storage
        ≡ ok k.restored =
      rw h.journal_lem at k.undone in
    subst (Extends s) same (record {
      same_indices = h.same_indices;
      newer = k.newer ++ h.newer;
      journal_lem =
          k.journal_lem
          ∙ ap (λ js. k.newer ++ js) h.journal_lem
          ∙ sym (append_assoc k.newer h.newer s.journal);
      restored = w;
      undone = rw (append_assoc, length-append, undo_all-append, inner) undone';
      back = Sim-trans s.storage h.restored w h.back sim';
    })

Run-Extends : {s t : TransientStorage} → Run s t → Extends s t
unfolding undo_all
Run-Extends {s} start = record {
  same_indices = refl;
  newer = [];
  journal_lem = refl;
  restored = s.storage;
  undone = refl;
  back = Sim-refl s.storage;
}
Run-Extends {s = s} {t = u} (write {t = t} addr key key_len value r e) =
    Extends-put addr key key_len value s t u (Run-Extends r) e
Run-Extends {s = s} {t = v} (committed {t = t} {u = u} r inner e) =
    Extends-commit s t u v (Run-Extends r) (Run-Extends inner) e
Run-Extends {s = s} {t = v} (reverted {t = t} {u = u} r inner e) =
    Extends-revert s t u v (Run-Extends r) (Run-Extends inner) e

-- Whatever runs inside a frame, frames inside it that commit or revert included, `revert` at its end
-- succeeds, and journal, checkpoints and the value of every slot are what they were on entry.
pub revert_restores :
    (s u : TransientStorage) (addr key : ℕ)
    → Run (checkpoint s) u
    → (v : TransientStorage) × (revert u ≡ ok v)
      × (v.journal ≡ s.journal)
      × (v.indices ≡ s.indices)
      × (get v addr key ≡ get s addr key)
unfolding get
revert_restores s u addr key r =
    let (v, e, journal', indices', sim) = revert-Extends s u (Run-Extends r) in
    (v, e, journal', indices', sym (sim.values addr key))

-- The checkpoints of a frame are open again, or still, behind what runs in it.
pub Run-indices : {s t : TransientStorage} → Run s t → t.indices ≡ s.indices
Run-indices r = (Run-Extends r).same_indices

-- The same for all slots at once.
pub revert_restores_all :
    (s u : TransientStorage)
    → Run (checkpoint s) u
    → (v : TransientStorage) × (revert u ≡ ok v)
      × ((addr key : ℕ) → get v addr key ≡ get s addr key)
unfolding get
revert_restores_all s u r =
    let (v, e, _, _, sim) = revert-Extends s u (Run-Extends r) in
    (v, e, λ addr key. sym (sim.values addr key))

-- `commit` at the end of a frame succeeds, drops the frame's checkpoint and changes nothing else.
pub commit_keeps :
    (s u : TransientStorage)
    → Run (checkpoint s) u
    → commit u ≡ ok (record u { indices = s.indices })
commit_keeps s u r = commit-Extends s u (Run-Extends r)
