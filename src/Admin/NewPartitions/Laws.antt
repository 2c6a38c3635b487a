-- ===== src/Admin/NewPartitions/Laws.antt =====
-- src/admin/NewPartitions.ts: what `assignReplicas` leaves, and what `toJSON` makes of it.
use kafka_node_ts.Prelude.{
  ℕ, suc, ◌+◌, ◌≤◌, ◌≡◌, refl, ap, sym, ◌∙◌, false, List, [], ◌∷◌, ◌++◌, map, length, length-append,
  append-nil, append_assoc, All, le→leb, arith,
}
use kafka_node_ts.Prelude.Int.{ℤ}
use kafka_node_ts.Prelude.Errors.{Result, ok, err, plain_error}
use kafka_node_ts.JsMap.{JsMap, nat_key, set}
use kafka_node_ts.Admin.NewTopic.{is_empty, unless_empty}
use kafka_node_ts.Admin.NewPartitions.{
  NewPartitions, assign_each, assign_replicas, insert_entry, sort_entries, PartitionsJson, to_json,
}

-- Assignments under the indices from `i` on.
abbrev numbered : ℕ → List (List ℤ) → JsMap ℕ (List ℤ)
numbered i [] = []
numbered i (a ∷ as') = (i, a) ∷ numbered (suc i) as'

set-numbered :
    (i n : ℕ) (done : List (List ℤ)) (a : List ℤ)
    → n ≡ i + length done
    → set n a (numbered i done) ≡ numbered i (done ++ a ∷ [])
unfolding set
set-numbered i n [] a e = ground arith
set-numbered i n (d ∷ done) a e = ground (arith, set-numbered (suc i) n done a)

abbrev AllGiven : List (List ℤ) → Type 0
AllGiven as' = All (λ a. is_empty a ≡ false) as'

abbrev holding : NewPartitions → List (List ℤ) → NewPartitions
holding p done = record p { assignments = numbered 0 done }

-- The loop takes assignments as long as none is empty.
assign_each-append :
    (p : NewPartitions) (done good rest : List (List ℤ)) (n : ℕ)
    → n ≡ length done
    → AllGiven good
    → assign_each n (good ++ rest) (holding p done)
      ≡ assign_each (n + length good) rest (holding p (done ++ good))
unfolding assign_each
assign_each-append p done [] rest n e h =
    let none_more : n + 0 ≡ n = omega arith in rw (none_more, append-nil done) refl
assign_each-append p done (a ∷ good) rest n e h =
    rw (h.0, set-numbered 0 n done a (omega arith))
      (assign_each-append p (done ++ a ∷ []) good rest (suc n)
          (omega (arith, length-append done (a ∷ []))) h.1
        ∙ ap (λ (k : ℕ). assign_each k rest (holding p ((done ++ a ∷ []) ++ good))) (omega arith)
        ∙ ap (λ (t : List (List ℤ)). assign_each (n + suc (length good)) rest (holding p t))
            (append_assoc done (a ∷ []) good))

insert-numbered :
    (i j : ℕ) (a : List ℤ) (rest : List (List ℤ))
    → i ≤ j
    → insert_entry (i, a) (numbered j rest) ≡ (i, a) ∷ numbered j rest
unfolding insert_entry
insert-numbered i j a [] h = refl
insert-numbered i j a (b ∷ rest) h = rw (le→leb i j h)

sort-numbered : (i : ℕ) (as' : List (List ℤ)) → sort_entries (numbered i as') ≡ numbered i as'
unfolding sort_entries
sort-numbered i [] = refl
sort-numbered i (a ∷ as') =
    ap (insert_entry (i, a)) (sort-numbered (suc i) as')
    ∙ insert-numbered i (suc i) a as' (omega arith)

values-numbered : (i : ℕ) (as' : List (List ℤ)) → map (λ e. e.1) (numbered i as') ≡ as'
values-numbered i [] = refl
values-numbered i (a ∷ as') = ap (◌∷◌ a) (values-numbered (suc i) as')

-- What `toJSON` tells of partitions with these assignments.
abbrev pub telling : NewPartitions → List (List ℤ) → PartitionsJson
telling p as' = record { total_count = p.total_count; assignments = unless_empty as' }

to_json-holding :
    (p : NewPartitions) (as' : List (List ℤ)) → to_json (holding p as') ≡ telling p as'
unfolding to_json
to_json-holding p as' = rw (sort-numbered 0 as', values-numbered 0 as')

-- Assignments none of which is empty: `assignReplicas` returns, and `toJSON` then lists them in their
-- order, or leaves them out if there are none, whatever was assigned before. With an empty assignment
-- behind them `assignReplicas` throws, and `toJSON` then lists those before the empty one: the
-- assignments made earlier are lost, and the first of the new ones are kept.
pub to_json-assign_replicas :
    (p : NewPartitions) (good rest : List (List ℤ))
    → AllGiven good
    → ((assign_replicas good p).0 ≡ ok tt)
      × (to_json (assign_replicas good p).1 ≡ telling p good)
      × ((assign_replicas (good ++ [] ∷ rest) p).0 ≡ err plain_error)
      × (to_json (assign_replicas (good ++ [] ∷ rest) p).1 ≡ telling p good)
unfolding assign_replicas assign_each
to_json-assign_replicas p good rest h =
    let all : assign_each 0 good (holding p []) ≡ (ok tt, holding p good) =
      ap (λ (t : List (List ℤ)). assign_each 0 t (holding p [])) (sym (append-nil good))
      ∙ assign_each-append p [] good [] 0 refl h in
    let part : assign_each 0 (good ++ [] ∷ rest) (holding p [])
        ≡ (err plain_error, holding p good) =
      assign_each-append p [] good ([] ∷ rest) 0 refl h in
    (
      ap (λ (r : Result {0} Unit × NewPartitions). r.0) all,
      ap (λ (r : Result {0} Unit × NewPartitions). to_json r.1) all ∙ to_json-holding p good,
      ap (λ (r : Result {0} Unit × NewPartitions). r.0) part,
      ap (λ (r : Result {0} Unit × NewPartitions). to_json r.1) part ∙ to_json-holding p good,
    )
