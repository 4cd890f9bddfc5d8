-- ===== src/Thread/Count.antt =====
-- The count of running threads against a census of them.
use flexfcapf.Prelude.{
  ℕ, ◌+◌, ◌-◌, ◌<◌, ◌≡◌, refl, Bool, true, List, [], ◌∷◌, if_intro, length, length-append, arith,
  ◌==◌, ltb, ==→eq, if◌then◌else◌,
}
use flexfcapf.Prelude.Int.{pos, ◌+ℤ◌, ◌-ℤ◌, pos_parts, neg_parts, int_laws, +ℤ_parts}
use flexfcapf.Thread.{
  Counts, Settings, null, thread, Started, thread_start, thread_setignore, thread_unsetignore,
  thread_register_nonterm, thread_unregister_nonterm, thread_release_nonterm, joinall_waits,
}

-- Started objects and counts that grew by as many as were created.
abbrev pub Grew : Counts → Started → Type 0
Grew c s = (s.counts.running ≡ c.running +ℤ pos (length s.created)) × (s.counts.nonterm ≡ c.nonterm)

-- `thread_start` adds to the count exactly the threads that it creates, `runNow` and its own among them.
pub thread_start-counts :
    (creates : ℕ → Bool) (s : Settings) (c : Counts) → Grew c (thread_start creates s c)
unfolding thread_start
thread_start-counts creates null c = (omega int_laws, refl)
thread_start-counts creates (thread name has_id now next) c =
    let before = thread_start creates now c in
    let (h, k) = thread_start-counts creates now c in
    let e = length-append before.created (name ∷ []) in
    if_intro (Grew c) has_id (λ _. (omega int_laws, refl))
      (λ _.
        if_intro (Grew c) (creates name) (λ _. (omega (int_laws, pos_parts h, neg_parts h, e), k))
          (λ _. (omega (int_laws, pos_parts h, neg_parts h), k)))

-- Who is there: the threads that have been started and have not ended, those of them that are ignored, the listeners
-- among them, and the listeners that have been released.
pub record Census : Type 0 where
  pub alive : ℕ
  pub ignored : ℕ
  pub listeners : ℕ
  pub released : ℕ

-- What the threads do.
pub data Event : Type 0 where
  start finish ignore unignore listen unlisten release : Event

abbrev pub act : Event → Counts → Counts
act Event.start c = record c { running = c.running +ℤ pos 1 }
act Event.finish c = record c { running = c.running -ℤ pos 1 }
act Event.ignore c = thread_setignore c
act Event.unignore c = thread_unsetignore c
act Event.listen c = thread_register_nonterm c
act Event.unlisten c = thread_unregister_nonterm c
act Event.release c = (thread_release_nonterm true c).0

-- A listener that ends is a released one only if all are.
abbrev pub recount : Event → Census → Census
recount Event.start k = record k { alive = k.alive + 1 }
recount Event.finish k = record k { alive = k.alive - 1 }
recount Event.ignore k = record k { ignored = k.ignored + 1 }
recount Event.unignore k = record k { ignored = k.ignored - 1 }
recount Event.listen k = record k { listeners = k.listeners + 1 }
recount Event.unlisten k =
    if k.listeners == k.released
    then record k { listeners = k.listeners - 1; released = k.released - 1 }
    else record k { listeners = k.listeners - 1 }
recount Event.release k = record k { released = k.listeners }

-- A thread ends that is alive, is no longer ignored that was, and is no longer a listener that was.
abbrev pub IsPossible : Event → Census → Type 0
IsPossible Event.finish k = 0 < k.alive
IsPossible Event.unignore k = 0 < k.ignored
IsPossible Event.unlisten k = 0 < k.listeners
IsPossible _ k = Unit

abbrev pub ArePossible : List Event → Census → Type 0
ArePossible [] k = Unit
ArePossible (e ∷ es) k = IsPossible e k × ArePossible es (recount e k)

abbrev pub act_all : List Event → Counts → Counts
act_all [] c = c
act_all (e ∷ es) c = act_all es (act e c)

abbrev pub recount_all : List Event → Census → Census
recount_all [] k = k
recount_all (e ∷ es) k = recount_all es (recount e k)

-- The counts of the code are those of the census.
pub record Agrees (c : Counts) (k : Census) : Type 0 where
  pub count : c.running +ℤ pos (k.ignored + k.released) ≡ pos k.alive
  pub rest : k.listeners ≡ c.nonterm + k.released

act-Agrees :
    (e : Event) (c : Counts) (k : Census)
    → IsPossible e k
    → Agrees c k
    → Agrees (act e c) (recount e k)
unfolding thread_setignore thread_unsetignore thread_register_nonterm thread_unregister_nonterm
    thread_release_nonterm
act-Agrees Event.start c k p a = record {
  count = omega (int_laws, pos_parts a.count, neg_parts a.count);
  rest = a.rest;
}
act-Agrees Event.finish c k p a = record {
  count = omega (int_laws, pos_parts a.count, neg_parts a.count);
  rest = a.rest;
}
act-Agrees Event.ignore c k p a = record {
  count = omega (int_laws, pos_parts a.count, neg_parts a.count);
  rest = a.rest;
}
act-Agrees Event.unignore c k p a = record {
  count = omega (int_laws, pos_parts a.count, neg_parts a.count);
  rest = a.rest;
}
act-Agrees Event.listen c k p a = record { count = a.count; rest = omega (arith, a.rest) }
act-Agrees Event.unlisten c k p a =
    if_intro (λ c'. Agrees c' (recount Event.unlisten k)) (c.nonterm == 0)
      (λ none_left.
        if_intro (Agrees (record c { running = c.running +ℤ pos 1 })) (k.listeners == k.released)
          (λ all. record {
            count = omega (
              int_laws,
              pos_parts a.count,
              neg_parts a.count,
              a.rest,
              p,
              ==→eq k.listeners k.released all,
            );
            rest = ground (arith, a.rest, p);
          })
          (λ some. absurd (ground (arith, a.rest))))
      (λ some_left.
        if_intro (Agrees (record c { nonterm = c.nonterm - 1 })) (k.listeners == k.released)
          (λ all. absurd (ground (arith, a.rest)))
          (λ some. record { count = a.count; rest = ground (arith, a.rest) }))
act-Agrees Event.release c k p a = record {
  count = omega (int_laws, pos_parts a.count, neg_parts a.count, a.rest);
  rest = omega arith;
}

run-Agrees :
    (es : List Event) (c : Counts) (k : Census)
    → Agrees c k
    → ArePossible es k
    → Agrees (act_all es c) (recount_all es k)
run-Agrees [] c k a p = a
run-Agrees (e ∷ es) c k a p = run-Agrees es (act e c) (recount e k) (act-Agrees e c k p.0 a) p.1

waits_of_Agrees :
    (c : Counts) (k : Census) → Agrees c k → joinall_waits c ≡ ltb (k.ignored + k.released) k.alive
waits_of_Agrees c k a =
    let p = pos_parts a.count in
    let q = neg_parts a.count in
    let l = +ℤ_parts c.running (pos (k.ignored + k.released)) in ground arith

-- From counts that agree with a census of the threads, after any possible events, `thread_joinall` waits
-- exactly if the threads that are alive are more than those that are ignored and those that are released.
pub joinall_waits_for :
    (es : List Event) (c : Counts) (k : Census)
    → Agrees c k
    → ArePossible es k
    → joinall_waits (act_all es c)
      ≡ ltb ((recount_all es k).ignored + (recount_all es k).released) (recount_all es k).alive
joinall_waits_for es c k a p =
    waits_of_Agrees (act_all es c) (recount_all es k) (run-Agrees es c k a p)
