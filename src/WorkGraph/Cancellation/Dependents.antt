-- ===== src/WorkGraph/Cancellation/Dependents.antt =====
-- The map `dependents` of `deriveCancellationClosure` holds the subtasks that depend on a key.
use metaclaw.Base.{
  ◌≡◌, refl, sym, ◌⊎◌, inl, inr, ◌↔◌, true, get_or, if◌then◌else◌, Bool-cases, String, List, [],
  ◌∷◌, ◌++◌, map, In, mem-append, mem-append_left, mem-append_right, sort_by, mem-sort_by, text_le,
  Dict, get, get-set, arith, ◌==◌, eq_iff, eq_refl,
}
use metaclaw.WorkGraph.Cancellation.{Node, push, push_all, collect, dependents_of, next_of}

-- `j` is the id of a subtask of the graph that depends on `k`.
abbrev pub DependsOn : List Node → String → String → Type 0
DependsOn graph j k = (s : Node) × In s graph × (s.id ≡ j) × In k s.dependencies

abbrev values : Dict (List String) → String → List String
values m k = get_or (get k m) []

values-push :
    (key id k : String) (m : Dict (List String))
    → values (push key id m) k ≡ (if key == k then values m key ++ id ∷ [] else values m k)
unfolding push
values-push key id k m = ground (arith, get-set key k (values m key ++ id ∷ []) m)

mem-push :
    (key id k j : String) (m : Dict (List String))
    → In j (values (push key id m) k)
    → In j (values m k) ⊎ ((id ≡ j) × (key ≡ k))
mem-push key id k j m h = elim (Bool-cases (key == k)) [
  | inl same ↦
      added same (mem-append j (values m key) (id ∷ []) (rw (values-push key id k m, same) at h))
  | inr other ↦ inl (rw (values-push key id k m, other) at h)
]
  where
    added :
        (key == k) ≡ true
        → In j (values m key) ⊎ In j (id ∷ [])
        → In j (values m k) ⊎ ((id ≡ j) × (key ≡ k))
    added same (inl old) = inl (rw (← (eq_iff key k).0 same) old)
    added same (inr (inl e)) = inr (sym e, (eq_iff key k).0 same)
    added same (inr (inr e)) = absurd e

mem-push_old :
    (key id k j : String) (m : Dict (List String))
    → In j (values m k)
    → In j (values (push key id m) k)
mem-push_old key id k j m h = elim (Bool-cases (key == k)) [
  | inl same ↦
      rw (values-push key id k m, same)
        (mem-append_left j (values m key) (id ∷ []) (rw ((eq_iff key k).0 same) h))
  | inr other ↦ rw (values-push key id k m, other) h
]

mem-push_self : (key id : String) (m : Dict (List String)) → In id (values (push key id m) key)
mem-push_self key id m =
    rw (values-push key id key m, eq_refl key)
      (mem-append_right id (values m key) (id ∷ []) (inl refl))

mem-push_all :
    (ks : List String) (id k j : String) (m : Dict (List String))
    → In j (values (push_all ks id m) k)
    → In j (values m k) ⊎ ((id ≡ j) × In k ks)
unfolding push_all
mem-push_all [] id k j m h = inl h
mem-push_all (key ∷ ks) id k j m h = elim (mem-push_all ks id k j (push key id m) h) [
  | inr (e, n) ↦ inr (e, inr n)
  | inl old ↦ elim (mem-push key id k j m old) [
    | inl older ↦ inl older
    | inr (e, same) ↦ inr (e, inl (sym same))
  ]
]

mem-push_all_old :
    (ks : List String) (id k j : String) (m : Dict (List String))
    → In j (values m k)
    → In j (values (push_all ks id m) k)
unfolding push_all
mem-push_all_old [] id k j m h = h
mem-push_all_old (key ∷ ks) id k j m h =
    mem-push_all_old ks id k j (push key id m) (mem-push_old key id k j m h)

mem-push_all_new :
    (ks : List String) (id k : String) (m : Dict (List String))
    → In k ks
    → In id (values (push_all ks id m) k)
unfolding push_all
mem-push_all_new [] id k m h = absurd h
mem-push_all_new (key ∷ ks) id k m (inl e) =
    mem-push_all_old ks id k id (push key id m) (rw e (mem-push_self key id m))
mem-push_all_new (key ∷ ks) id k m (inr h) = mem-push_all_new ks id k (push key id m) h

mem-collect :
    (graph : List Node) (k j : String) (m : Dict (List String))
    → In j (values (collect graph m) k)
    → In j (values m k) ⊎ DependsOn graph j k
unfolding collect
mem-collect [] k j m h = inl h
mem-collect (s ∷ rest) k j m h = elim (mem-collect rest k j (push_all s.dependencies s.id m) h) [
  | inr (t, n, e, d) ↦ inr (t, inr n, e, d)
  | inl old ↦ elim (mem-push_all s.dependencies s.id k j m old) [
    | inl older ↦ inl older
    | inr (e, d) ↦ inr (s, inl refl, e, d)
  ]
]

mem-collect_old :
    (graph : List Node) (k j : String) (m : Dict (List String))
    → In j (values m k)
    → In j (values (collect graph m) k)
unfolding collect
mem-collect_old [] k j m h = h
mem-collect_old (s ∷ rest) k j m h =
    mem-collect_old rest k j (push_all s.dependencies s.id m)
      (mem-push_all_old s.dependencies s.id k j m h)

mem-collect_new :
    (graph : List Node) (k : String) (s : Node) (m : Dict (List String))
    → In s graph
    → In k s.dependencies
    → In s.id (values (collect graph m) k)
unfolding collect
mem-collect_new [] k s m n d = absurd n
mem-collect_new (t ∷ rest) k s m (inl e) d =
    mem-collect_old rest k s.id (push_all t.dependencies t.id m)
      (rw e (mem-push_all_new t.dependencies t.id k m (rw e at d)))
mem-collect_new (t ∷ rest) k s m (inr n) d =
    mem-collect_new rest k s (push_all t.dependencies t.id m) n d

values-sorted :
    (k : String) (m : Dict (List String))
    → values (map (λ e. (e.0, sort_by text_le e.1)) m) k ≡ sort_by text_le (values m k)
unfolding get sort_by
values-sorted k [] = refl
values-sorted k ((i, v) ∷ m) = ground (arith, values-sorted k m)

-- The dependents of `k` are the subtasks that depend on `k`.
pub mem-next_of : (graph : List Node) (j k : String) → In j (next_of graph k) ↔ DependsOn graph j k
unfolding next_of dependents_of
mem-next_of graph j k =
    let found = values (collect graph []) k in
    rw (values-sorted k (collect graph [])) (
      λ m. elim (mem-collect graph k j [] ((mem-sort_by text_le j found).0 m)) [
        | inl old ↦ absurd (unfold get in old)
        | inr d ↦ d
      ],
      λ (s, n, e, d). (mem-sort_by text_le j found).1 (rw (← e) (mem-collect_new graph k s [] n d)),
    )
