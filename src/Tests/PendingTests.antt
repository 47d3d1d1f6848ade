-- ===== src/Tests/PendingTests.antt =====
-- The registry at its cap, and a call that outlives others.
use alayaface.Prelude.{◌≡◌, refl, some, List, [], ◌∷◌, codes, text_eq, arith}
use alayaface.Pending.{new, insert, remove}
use alayaface.Pending.Steps.{IsConsistent, new-IsConsistent}
use alayaface.Pending.History.{Op, sent, answered, run, run-IsConsistent, remove-run-insert}

abbrev two_sent : List Op
two_sent =
    sent (codes "a") (codes "save") ∷ sent (codes "b") (codes "fork") ∷ answered (codes "a") ∷ []

run-IsConsistent_example : IsConsistent (run new two_sent)
run-IsConsistent_example = run-IsConsistent two_sent

remove-run-insert_example :
    (remove (codes "x") (run (insert (codes "x") (codes "cancel") new) two_sent)).0
    ≡ some (codes "cancel")
unfolding text_eq new
remove-run-insert_example =
    remove-run-insert (codes "x") (codes "cancel") new two_sent new-IsConsistent refl
      (refl, (refl, (refl, tt))) (omega arith)
