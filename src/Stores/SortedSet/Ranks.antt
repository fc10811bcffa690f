-- ===== src/Stores/SortedSet/Ranks.antt =====
-- stores/SortedSet.ts: the order of a sorted view, and the ranks in it.
use oblivinx.Base.{
  ℕ, zero, suc, ◌+◌, ◌-◌, ◌<◌, ◌≡◌, refl, sym, ap, ◌∙◌, subst, Bool, true, false, String, some,
  List, [], ◌∷◌, Option-cases, Bool-cases, inl, inr, arith, str_eq, default_to, ltb, length, Perm,
  length-perm, take, take-all,
}
use mathlib.Core.Option
use mathlib.Core.List.Perm
use oblivinx.Base.Dict.{Dict, lookup}
use oblivinx.Stores.SortedSet.{
  ZMember, SortedSet, at, back, new_set, members_of, set_at, sort, sorted, comes_first,
  insert_sorted, index_of, zrank, zrevrank, zcard, zrevrange, leaderboard, board_key, slice,
  reverse, end_index, last_index, ranked_from,
}
use oblivinx.Stores.SortedSet.Cache.{IsCoherent, sorted_lem, Call, run_calls, run_calls-sorted}

-- `localeCompare` orders any two members one way or the other.
abbrev pub IsTotal : (String → String → Bool) → Type 0
IsTotal member_le = (a b : String) → member_le a b ≡ false → member_le b a ≡ true

module _ (member_le : String → String → Bool) where
  -- No member of the view stands after its successor.
  abbrev pub IsOrdered : List ZMember → Type 0
  IsOrdered [] = Unit
  IsOrdered (x ∷ []) = Unit
  IsOrdered (x ∷ y ∷ l) = (comes_first member_le x y ≡ true) × IsOrdered (y ∷ l)

  comes_first-total :
      IsTotal member_le
      → (a b : ZMember) → comes_first member_le a b ≡ false
      → comes_first member_le b a ≡ true
  comes_first-total total a b h = ground (arith, total a.member b.member)

  pub insert_sorted-perm :
      (x : ZMember) (l : List ZMember) → Perm (insert_sorted member_le x l) (x ∷ l)
  insert_sorted-perm x [] = Perm.refl (x ∷ [])
  insert_sorted-perm x (y ∷ l) = elim (Bool-cases (comes_first member_le x y)) [
    | inl first ↦ rw first (Perm.refl (x ∷ y ∷ l))
    | inr later ↦ rw later (Perm.trans (Perm.cons y (insert_sorted-perm x l)) (Perm.swap x y l))
  ]

  pub sort-perm : (l : List ZMember) → Perm (sort member_le l) l
  sort-perm [] = Perm.nil
  sort-perm (x ∷ l) =
      Perm.trans (insert_sorted-perm x (sort member_le l)) (Perm.cons x (sort-perm l))

  insert_sorted-IsOrdered :
      IsTotal member_le
      → (x : ZMember) (l : List ZMember) → IsOrdered l
      → IsOrdered (insert_sorted member_le x l)
  insert_sorted-IsOrdered total x [] h = tt
  insert_sorted-IsOrdered total x (y ∷ []) h = elim (Bool-cases (comes_first member_le x y)) [
    | inl first ↦ rw first (first, tt)
    | inr later ↦ rw later (comes_first-total total x y later, tt)
  ]
  insert_sorted-IsOrdered total x (y ∷ z ∷ l) (before, h) =
      let ih = insert_sorted-IsOrdered total x (z ∷ l) h in
      elim (Bool-cases (comes_first member_le x y)) [
        | inl first ↦ rw first (first, (before, h))
        | inr later ↦ rw later (behind (comes_first-total total x y later) ih)
      ]
    where
      behind :
          comes_first member_le y x ≡ true
          → IsOrdered (insert_sorted member_le x (z ∷ l))
          → IsOrdered (y ∷ insert_sorted member_le x (z ∷ l))
      behind after ih = elim (Bool-cases (comes_first member_le x z)) [
        | inl first ↦
            let e : insert_sorted member_le x (z ∷ l) ≡ x ∷ z ∷ l = rw first refl in
            subst (λ m. IsOrdered (y ∷ m)) (sym e) (after, subst IsOrdered e ih)
        | inr later ↦
            let e : insert_sorted member_le x (z ∷ l) ≡ z ∷ insert_sorted member_le x l =
              rw later refl in
            subst (λ m. IsOrdered (y ∷ m)) (sym e) (before, subst IsOrdered e ih)
      ]

  sort-IsOrdered :
      (l : List ZMember)
      → IsTotal member_le
      → IsOrdered (sort member_le l) × Perm (sort member_le l) l
  sort-IsOrdered [] total = (tt, sort-perm [])
  sort-IsOrdered (x ∷ l) total = (
    insert_sorted-IsOrdered total x (sort member_le l) (sort-IsOrdered l total).0,
    sort-perm (x ∷ l),
  )

  -- If `localeCompare` orders any two members, then after any run of writes, removals and reads of
  -- sorted views, what the next `_sorted` returns, from the cache or not, is the sort of the
  -- members that the set has now: it has exactly these members, and none of them stands after one
  -- that it comes before.
  pub run_calls-IsOrdered :
      (calls : List (Call member_le)) (key : String)
      → IsTotal member_le
      → ((sorted member_le key (run_calls member_le calls new_set)).0
          ≡ sort member_le (members_of (set_at key (run_calls member_le calls new_set))))
        × IsOrdered (sorted member_le key (run_calls member_le calls new_set)).0
        × Perm
            (sorted member_le key (run_calls member_le calls new_set)).0
            (members_of (set_at key (run_calls member_le calls new_set)))
  run_calls-IsOrdered calls key total =
      let s = run_calls member_le calls new_set in
      let view = run_calls-sorted member_le calls key in
      let (ordered, same) = sort-IsOrdered (members_of (set_at key s)) total in
      (
        view,
        subst IsOrdered (sym view) ordered,
        subst (λ l. Perm l (members_of (set_at key s))) (sym view) same,
      )

  index_of-bound :
      (member : String) (l : List ZMember) (i : ℕ) → index_of member l ≡ some i → i < length l
  index_of-bound member [] i h = absurd (cc)
  index_of-bound member (e ∷ l) i h = elim (Bool-cases (str_eq e.member member)) [
    | inl own ↦ ground arith
    | inr other ↦ elim (Option-cases (index_of member l)) [
      | inl missing ↦ absurd (ground arith)
      | inr (n, found) ↦ let ih = index_of-bound member l n found in ground arith
    ]
  ]

  length-members_of : (set : Dict ℕ) → length (members_of set) ≡ length set
  length-members_of [] = refl
  length-members_of ((m, score) ∷ set) = omega (arith, length-members_of set)

  length-sort : (set : Dict ℕ) → length (sort member_le (members_of set)) ≡ length set
  length-sort set = length-perm (sort-perm (members_of set)) ∙ length-members_of set

  -- Where every cached view is the sort of its set, if `zrank` finds a member, then `zrevrank`
  -- after it finds it too, and the two ranks and one add up to `zcard`.
  pub zrevrank-zrank :
      (key member : String) (i : ℕ) (s : SortedSet)
      → IsCoherent member_le s
      → (zrank member_le key member s).0 ≡ some i
      → (j : ℕ) × ((zrevrank member_le key member (zrank member_le key member s).1).0 ≡ some j)
        × (i + j + 1 ≡ zcard key s)
  unfolding zrank zrevrank
  zrevrank-zrank key member i s c found =
      let t = (sorted member_le key s).1 in
      let (view, sets, kept) = sorted_lem member_le key s c in
      let (again, sets', kept') = sorted_lem member_le key t kept in
      let full = sort member_le (members_of (set_at key s)) in
      let same : (sorted member_le key t).0 ≡ full =
        again ∙ ap (λ m. sort member_le (members_of (default_to (lookup key m) []))) sets in
      let there : index_of member full ≡ some i = ap (index_of member) (sym view) ∙ found in
      let bound = index_of-bound member full i there in
      let long = length-sort (set_at key s) in
      (
        length full - 1 - i,
        ap (λ l. Option.map (λ k. length l - 1 - k) (index_of member l)) same
            ∙ ap (Option.map (λ k. length full - 1 - k)) there,
        omega (arith, bound, long),
      )

  slice-top : (n : ℕ) (l : List ZMember) → slice (at 0) (at n) l ≡ take (n + 1) l
  slice-top n l = elim (Bool-cases (ltb n (length l))) [
    | inl shorter ↦
        let e : end_index (length l) (at n) - 0 ≡ n + 1 = ground arith in ap (λ k. take k l) e
    | inr longer ↦
        let e : end_index (length l) (at n) - 0 ≡ length l = ground arith in
        ap (λ k. take k l) e
        ∙ take-all (length l) l (omega arith)
        ∙ sym (take-all (n + 1) l (ground arith))
  ]

  slice-whole : (l : List ZMember) → slice (at 0) (back 1) l ≡ l
  slice-whole l =
      let e : end_index (length l) (back 1) - 0 ≡ length l = ground arith in
      ap (λ k. take k l) e ∙ take-all (length l) l (omega arith)

  -- What `leaderboard` lists, for a limit.
  abbrev pub board : ℕ → List ZMember → List ZMember
  board zero ranking = ranking
  board (suc n) ranking = take (suc n) ranking

  board-slice : (limit : ℕ) (l : List ZMember) → slice (at 0) (last_index limit) l ≡ board limit l
  board-slice zero l = slice-whole l
  board-slice (suc n) l =
      let e : n + 1 ≡ suc n = omega arith in slice-top n l ∙ ap (λ k. take k l) e

  -- Where every cached view is the sort of its set, `leaderboard` with a limit above 0 lists the
  -- first `limit` members of the set in descending order, with their ranks from 1 on; with the
  -- limit 0 it lists all of them.
  pub leaderboard-board :
      (game_type group : String) (limit : ℕ) (s : SortedSet)
      → IsCoherent member_le s
      → (leaderboard member_le game_type group limit s).0
        ≡ ranked_from 0 (
            board limit
              (reverse (sort member_le (members_of (set_at (board_key game_type group) s)))))
  unfolding leaderboard zrevrange
  leaderboard-board game_type group limit s c =
      let (view, sets, kept) = sorted_lem member_le (board_key game_type group) s c in
      ap (λ l. ranked_from 0 (slice (at 0) (last_index limit) (reverse l))) view
      ∙ ap (ranked_from 0) (board-slice limit _)
