-- ===== src/Reporter/Setup/Barrier.antt =====
-- The barrier of the clients of a group.
use flexfcapf.Prelude.{
  ◌+◌, ◌-◌, ◌≡◌, refl, ap, subst, Bool, true, false, List, [], ◌∷◌, ◌++◌, ◌==◌, if_intro, replicate,
  length, arith,
}
use flexfcapf.Settings.{Timeval, ReporterData}
use flexfcapf.Reporter.Time.{time_add}
use flexfcapf.Reporter.Multi.{MultiHeader}
use flexfcapf.Reporter.Setup.{barrier_arrive, barrier_leave}

module _ {W : Type 0} where
  -- The clients arrive at the times given; who wakes the others.
  abbrev pub arrive_all : List Timeval → MultiHeader W → MultiHeader W × List Bool
  arrive_all [] m = (m, [])
  arrive_all (t ∷ ts) m =
      let x = barrier_arrive t m in let y = arrive_all ts x.0 in (y.0, x.1 ∷ y.1)

  -- The clients of a group leave, each with its report.
  abbrev pub leave_all :
      List (ReporterData W) → MultiHeader W → MultiHeader W × List (ReporterData W)
  leave_all [] m = (m, [])
  leave_all (r ∷ rs) m = let x = barrier_leave m r in let y = leave_all rs x.0 in (y.0, x.1 ∷ y.1)

  -- The reports start at a time, and their next interval ends one interval later.
  abbrev pub StartAt : Timeval → List (ReporterData W) → Type 0
  StartAt t [] = Unit
  StartAt t (r ∷ rs) =
      (r.start_time ≡ t) × ((r.next_time ≡ time_add t r.interval_time) × StartAt t rs)

  -- All but the last client wait, and the last one sets the time and wakes them.
  arrive_all-starts :
      (ts : List Timeval) (t : Timeval) (m : MultiHeader W)
      → m.threads ≡ length ts + 1
      → ((arrive_all (ts ++ t ∷ []) m).0.threads ≡ 0)
        × (((arrive_all (ts ++ t ∷ []) m).0.start_time ≡ t)
            × ((arrive_all (ts ++ t ∷ []) m).1 ≡ replicate (length ts) false ++ true ∷ []))
  unfolding barrier_arrive
  arrive_all-starts [] t m e =
      let q : (m.threads == 1) ≡ true = ground arith in rw q (omega (arith, e), (refl, refl))
  arrive_all-starts (u ∷ ts) t m e =
      let (h, (k, l)) =
        arrive_all-starts ts t (record m { threads = m.threads - 1 }) (omega (arith, e)) in
      if_intro
        (λ (x : MultiHeader W × Bool).
          ((arrive_all (ts ++ t ∷ []) x.0).0.threads ≡ 0)
          × (((arrive_all (ts ++ t ∷ []) x.0).0.start_time ≡ t)
              × (x.1 ∷ (arrive_all (ts ++ t ∷ []) x.0).1
                  ≡ false ∷ (replicate (length ts) false ++ true ∷ []))))
        (m.threads == 1) (λ q. absurd (ground (arith, e))) (λ _. (h, (k, ap (λ x. false ∷ x) l)))

  leave_all-starts :
      (rs : List (ReporterData W)) (m : MultiHeader W)
      → ((leave_all rs m).0.threads ≡ m.threads + length rs)
        × (StartAt m.start_time (leave_all rs m).1)
  unfolding barrier_leave
  leave_all-starts [] m = (omega arith, tt)
  leave_all-starts (r ∷ rs) m =
      let (h, k) = leave_all-starts rs (barrier_leave m r).0 in
      (omega (arith, h), (refl, (refl, k)))

  -- A group of clients that arrive at the times given, the last one at `t`, and then leave: the last one wakes
  -- the others and no other does, each report starts at `t` with its first interval after it, and the group is as
  -- many as before.
  pub barrier_meets :
      (ts : List Timeval) (t : Timeval) (rs : List (ReporterData W)) (m : MultiHeader W)
      → m.threads ≡ length ts + 1
      → length rs ≡ m.threads
      → ((arrive_all (ts ++ t ∷ []) m).1 ≡ replicate (length ts) false ++ true ∷ [])
        × (((leave_all rs (arrive_all (ts ++ t ∷ []) m).0).0.threads ≡ m.threads)
            × StartAt t (leave_all rs (arrive_all (ts ++ t ∷ []) m).0).1)
  barrier_meets ts t rs m e f =
      let m' = (arrive_all (ts ++ t ∷ []) m).0 in
      let (h, (k, l)) = arrive_all-starts ts t m e in
      let (u, v) = leave_all-starts rs m' in
      (l, (omega (arith, u, h, f), subst (λ x. StartAt x (leave_all rs m').1) k v))
