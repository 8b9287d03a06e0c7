-- ===== src/Rebuild/State/Reach.antt =====
-- The states of a job over every sequence of operations and reconciliations.
use mayastor.Common.{◌≡◌, refl, Bool, true, Option, none, some, List, [], ◌∷◌, arith, ◌⊎◌, inl, inr}
use mayastor.Rebuild.State.{
  RebuildState, RebuildStates, RebuildOperation, exec_op, reconcile, default, is_done, take_pending,
}
use mayastor.Rebuild.State.Edges.{
  ◌⟶◌, edge-live, PendingFrom, IsConsistent, exec_op-IsConsistent, default-IsConsistent,
}

-- What the frontend (the flag says whether it overrides) and the backend do to the shared states.
pub data Action : Type 0 where
  operates : RebuildOperation → Bool → Action
  reconciles : Action

unfoldable pub act : RebuildStates → Action → RebuildStates
act s (operates op o) = (exec_op s op o).0
act s reconciles = (reconcile s).0

unfoldable pub run : RebuildStates → List Action → RebuildStates
run s [] = s
run s (a ∷ as') = run (act s a) as'

-- A state stays, or is left along an edge.
abbrev pub StepsTo : RebuildState → RebuildState → Type 0
StepsTo c d = (d ≡ c) ⊎ (c ⟶ d)

reconcile-StepsTo :
    (s : RebuildStates) (p : Option RebuildState)
    → s.pending ≡ p
    → PendingFrom s.current p
    → IsConsistent (take_pending p s) × StepsTo s.current (take_pending p s).current
unfolding take_pending
reconcile-StepsTo s none e h = (rw e tt, inl refl)
reconcile-StepsTo s (some p) e h = (tt, inr h)

act-StepsTo :
    (s : RebuildStates) (a : Action)
    → IsConsistent s
    → IsConsistent (act s a) × StepsTo s.current (act s a).current
unfolding act reconcile
act-StepsTo s (operates op o) h = let k = exec_op-IsConsistent s op o h in (k.0, inl k.1)
act-StepsTo s reconciles h = reconcile-StepsTo s s.pending refl h

run-IsConsistent :
    (s : RebuildStates) (as' : List Action) → IsConsistent s → IsConsistent (run s as')
unfolding run
run-IsConsistent s [] h = h
run-IsConsistent s (a ∷ as') h = run-IsConsistent (act s a) as' (act-StepsTo s a h).0

-- Whatever clients and the backend have done to a new job, in any order: its pending state is the end
-- of an edge that leaves its current state, and the next thing that one of them does leaves the
-- current state or moves it along an edge of the diagram, from which a final state has none.
pub run_follows_edges :
    (as' : List Action) (a : Action)
    → IsConsistent (run default as')
      × StepsTo (run default as').current (act (run default as') a).current
run_follows_edges as' a =
    let c = run-IsConsistent default as' default-IsConsistent in
    (c, (act-StepsTo (run default as') a c).1)

done-pending : (s : RebuildStates) → is_done s.current ≡ true → IsConsistent s → s.pending ≡ none
done-pending s d c = pending_at s.pending c
  where
    pending_at : (p : Option RebuildState) → PendingFrom s.current p → p ≡ none
    pending_at none h = refl
    pending_at (some p) h = cc (edge-live h)

act_of_done :
    (s : RebuildStates) (a : Action) → is_done s.current ≡ true → s.pending ≡ none → act s a ≡ s
unfolding act exec_op reconcile
act_of_done s a d p = ground arith

-- A stopped, failed or completed job with consistent states stays exactly as it is under any actions.
pub run_of_done :
    (s : RebuildStates) (as' : List Action)
    → is_done s.current ≡ true
    → IsConsistent s
    → run s as' ≡ s
unfolding run
run_of_done s [] d c = refl
run_of_done s (a ∷ as') d c =
    let e = act_of_done s a d (done-pending s d c) in rw e (run_of_done s as' d c)
