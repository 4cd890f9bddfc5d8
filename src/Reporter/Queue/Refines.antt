-- ===== src/Reporter/Queue/Refines.antt =====
-- The reporter's list as a list from which the finished reports are taken.
use flexfcapf.Prelude.{
  ◌≡◌, refl, ap, ap₂, ◌∙◌, Bool, true, false, List, [], ◌∷◌, ◌++◌, if◌then◌else◌,
}
use flexfcapf.Reporter.Queue.{
  Job, Desk, process_one, drop_next, process_report, unlink, spawn_round,
}

module _ {T : Type 0} (packets : T → T × Bool) where
  -- Each report has its turn, the last one first, and stays unless it is to be freed.
  abbrev pub keep : List (Job T) → Desk → List (Job T) × Desk
  keep [] w = ([], w)
  keep (x ∷ xs) w =
      let (ys, w') = keep xs w in
      let turn = process_one packets x w' in
      (if turn.need_free then ys else turn.job ∷ ys, turn.desk)

  process_report-keep :
      (xs : List (Job T)) (w : Desk)
      → (drop_next packets (process_report packets xs w).1 (process_report packets xs w).0
          ≡ (keep xs w).0)
        × ((process_report packets xs w).2 ≡ (keep xs w).1)
  unfolding process_report
  process_report-keep [] w = (refl, refl)
  process_report-keep (x ∷ xs) w =
      let (e, f) = process_report-keep xs w in
      (
        ap₂
            (λ ys v.
              let turn = process_one packets x v in if turn.need_free then ys else turn.job ∷ ys)
            e f,
        ap (λ v. (process_one packets x v).desk) f,
      )

  unlink-drop_next :
      (added rest : List (Job T)) → unlink packets added rest ≡ added ++ drop_next packets true rest
  unfolding unlink
  unlink-drop_next [] [] = refl
  unlink-drop_next [] (x ∷ xs) = refl
  unlink-drop_next (n ∷ ns) rest = ap (λ l. n ∷ l) (unlink-drop_next ns rest)

  drop_next-false : (rest : List (Job T)) → rest ≡ drop_next packets false rest
  drop_next-false [] = refl
  drop_next-false (x ∷ xs) = refl

  taken_out :
      (b : Bool) (added rest : List (Job T))
      → (if b then unlink packets added rest else added ++ rest) ≡ added ++ drop_next packets b rest
  taken_out true added rest = unlink-drop_next added rest
  taken_out false added rest = ap (λ l. added ++ l) (drop_next-false rest)

  -- A round of the reporter leaves the reports that were added since its start and behind them, in their order, those of the
  -- list that are not to be freed after their turns, which they have from the last to the first.
  pub spawn_round-keep :
      (added root : List (Job T)) (w : Desk)
      → ((spawn_round packets added root w).0 ≡ added ++ (keep root w).0)
        × ((spawn_round packets added root w).1 ≡ (keep root w).1)
  unfolding spawn_round
  spawn_round-keep added root w =
      let (e, f) = process_report-keep root w in
      (
        taken_out (process_report packets root w).1 added (process_report packets root w).0
            ∙ ap (λ l. added ++ l) e,
        f,
      )
