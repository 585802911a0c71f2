-- ===== src/Evm/Message/Frames.antt =====
-- What a state manager promises about its checkpoints, and the frames that the state manager and the
-- transient storage share: packages/vm/src/evm/evm.ts opens and ends them together.
use moola_fix.Common.{
  ℕ, ◌≡◌, refl, sym, ◌∙◌, List, ◌∷◌, ok, ok-injective, subst, ◌==◌, if◌then◌else◌,
}
use moola_fix.State.TransientStorage as T
use moola_fix.State.TransientStorage.{TransientStorage}
use moola_fix.State.TransientStorage.Frames as TF
use moola_fix.Evm.Message.{Account, StateManager, World}
use moola_fix.Evm.Message.Checkpoints.{enter, commit_both, revert_both}

-- `view` is all that a state manager shows, accounts, code, storage and warm addresses, and `saved` what
-- it showed at the checkpoints that are open, the last one first.
pub record IsStateManager {S : Type 0} (sm : StateManager S) (View : Type 0) : Type 0 where
  pub view : S → View
  pub saved : S → List View
  pub account_of : View → ℕ → Account
  pub reads : (a : ℕ) (s : S) → sm.get_account a s ≡ account_of (view s) a
  pub account_of-put :
      (a b : ℕ) (x : Account) (s : S)
      → account_of (view (sm.put_account a x s)) b ≡ (if b == a then x else account_of (view s) b)
  pub saved-put : (a : ℕ) (x : Account) (s : S) → saved (sm.put_account a x s) ≡ saved s
  pub saved-put_code :
      (a : ℕ) (code : List ℕ) (s : S) → saved (sm.put_contract_code a code s) ≡ saved s
  pub saved-put_storage :
      (a key : ℕ) (value : List ℕ) (s : S) → saved (sm.put_contract_storage a key value s) ≡ saved s
  pub saved-clear : (a : ℕ) (s : S) → saved (sm.clear_contract_storage a s) ≡ saved s
  pub saved-warm : (a : ℕ) (s : S) → saved (sm.add_warmed_address a s) ≡ saved s
  pub saved-warm_slot : (a slot : ℕ) (s : S) → saved (sm.add_warmed_storage a slot s) ≡ saved s
  pub saved-checkpoint : (s : S) → saved (sm.checkpoint s) ≡ view s ∷ saved s
  pub commits :
      (s : S) (v : View) (rest : List View)
      → saved s ≡ v ∷ rest
      → (s' : S) × (sm.commit s ≡ ok s') × (view s' ≡ view s) × (saved s' ≡ rest)
  pub reverts :
      (s : S) (v : View) (rest : List View)
      → saved s ≡ v ∷ rest
      → (s' : S) × (sm.revert s ≡ ok s') × (view s' ≡ v) × (saved s' ≡ rest)

module _ {S View : Type 0} (sm : StateManager S) (laws : IsStateManager sm View) where
  -- What can happen to the state while a message is executed: writes that leave the checkpoints alone,
  -- and frames inside it.
  pub data Run : World S → World S → Type 0 where
    start : {w : World S} → Run w w
    manage :
        {w x : World S} (manager : S)
        → Run w x
        → laws.saved manager ≡ laws.saved x.manager
        → Run w (record x { manager = manager })
    store :
        {w x : World S} (addr key key_len : ℕ) (value : T.Buffer) (transient : TransientStorage)
        → Run w x
        → T.put addr key key_len value x.transient ≡ ok transient
        → Run w (record x { transient = transient })
    count : {w x : World S} (refund : ℕ) → Run w x → Run w (record x { refund = refund })
    committed :
        {w x y z : World S} → Run w x → Run (enter sm x) y → commit_both sm y ≡ ok z → Run w z
    reverted :
        {w x y z : World S} → Run w x → Run (enter sm x) y → revert_both sm y ≡ ok z → Run w z

  pub Run-trans : {w x y : World S} → Run w x → Run x y → Run w y
  Run-trans r start = r
  Run-trans r (manage m q e) = manage m (Run-trans r q) e
  Run-trans r (store a k l v t q e) = store a k l v t (Run-trans r q) e
  Run-trans r (count n q) = count n (Run-trans r q)
  Run-trans r (committed q inner e) = committed (Run-trans r q) inner e
  Run-trans r (reverted q inner e) = reverted (Run-trans r q) inner e

  -- The open checkpoints are what they were, and the transient storage has made a run of its own.
  abbrev pub Kept : World S → World S → Type 0
  Kept w x = (laws.saved x.manager ≡ laws.saved w.manager) × TF.Run w.transient x.transient

  -- What ends a frame, from what has been kept inside it.
  pub commit_both_lem :
      (w x : World S)
      → Kept (enter sm w) x
      → (y : World S) × (commit_both sm x ≡ ok y)
        × (laws.view y.manager ≡ laws.view x.manager)
        × (laws.saved y.manager ≡ laws.saved w.manager)
        × (T.commit x.transient ≡ ok y.transient)
        × (y.refund ≡ x.refund)
  unfolding enter commit_both
  commit_both_lem w x (same, r) =
      let (manager, done, seen, rest) =
        laws.commits x.manager (laws.view w.manager) (laws.saved w.manager)
          (same ∙ laws.saved-checkpoint w.manager) in
      let ended = TF.commit_keeps w.transient x.transient r in
      (
        record x {
          manager = manager;
          transient = record x.transient { indices = w.transient.indices };
        },
        rw (done, ended) refl,
        seen,
        rest,
        ended,
        refl,
      )

  pub revert_both_lem :
      (w x : World S)
      → Kept (enter sm w) x
      → (y : World S) × (revert_both sm x ≡ ok y)
        × (laws.view y.manager ≡ laws.view w.manager)
        × (laws.saved y.manager ≡ laws.saved w.manager)
        × (T.revert x.transient ≡ ok y.transient)
        × ((addr key : ℕ) → T.get y.transient addr key ≡ T.get w.transient addr key)
        × (y.refund ≡ x.refund)
  unfolding enter revert_both
  revert_both_lem w x (same, r) =
      let (manager, done, seen, rest) =
        laws.reverts x.manager (laws.view w.manager) (laws.saved w.manager)
          (same ∙ laws.saved-checkpoint w.manager) in
      let (transient, ended, values) = TF.revert_restores_all w.transient x.transient r in
      (
        record x { manager = manager; transient = transient },
        rw (done, ended) refl,
        seen,
        rest,
        ended,
        values,
        refl,
      )

  ended_run :
      (w x y z : World S) → Kept w x → Kept (enter sm x) y → commit_both sm y ≡ ok z → Kept w z
  unfolding enter
  ended_run w x y z k inner e =
      let (z', done, _, rest, ended, _) = commit_both_lem x y inner in
      subst (Kept w) (ok-injective z' z (sym done ∙ e)) (rest ∙ k.0, TF.committed k.1 inner.1 ended)

  undone_run :
      (w x y z : World S) → Kept w x → Kept (enter sm x) y → revert_both sm y ≡ ok z → Kept w z
  unfolding enter
  undone_run w x y z k inner e =
      let (z', done, _, rest, ended, _, _) = revert_both_lem x y inner in
      subst (Kept w) (ok-injective z' z (sym done ∙ e)) (rest ∙ k.0, TF.reverted k.1 inner.1 ended)

  pub Run-Kept : {w x : World S} → Run w x → Kept w x
  Run-Kept start = (refl, TF.start)
  Run-Kept (manage m r e) = let k = Run-Kept r in (e ∙ k.0, k.1)
  Run-Kept (store a key l v t r e) = let k = Run-Kept r in (k.0, TF.write a key l v k.1 e)
  Run-Kept (count n r) = Run-Kept r
  Run-Kept {w = w} {x = z} (committed {x = x} {y = y} r inner e) =
      ended_run w x y z (Run-Kept r) (Run-Kept inner) e
  Run-Kept {w = w} {x = z} (reverted {x = x} {y = y} r inner e) =
      undone_run w x y z (Run-Kept r) (Run-Kept inner) e
