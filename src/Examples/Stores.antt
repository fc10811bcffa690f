-- ===== src/Examples/Stores.antt =====
-- stores/SortedSet.ts: a board with two members, whose names all compare as equal.
use oblivinx.Base.{◌≡◌, refl, Bool, true, String, List, [], ◌∷◌, Perm}
use oblivinx.Stores.SortedSet.{
  SortedSet, new_set, members_of, set_at, sort, sorted, reverse, leaderboard, board_key,
  ranked_from,
}
use oblivinx.Stores.SortedSet.Cache.{
  IsCoherent, Call, adds, increments, views, run_calls, new_set-IsCoherent, calls-IsCoherent,
}
use oblivinx.Stores.SortedSet.Ranks.{IsTotal, IsOrdered, run_calls-IsOrdered, leaderboard-board}

abbrev le : String → String → Bool
le a b = true

le-IsTotal : IsTotal le
le-IsTotal a b h = refl

abbrev calls : List (Call le)
calls =
    adds "lb:quiz:us" 5 "ann"
    ∷ views "lb:quiz:us"
    ∷ adds "lb:quiz:us" 3 "bob"
    ∷ increments "lb:quiz:us" 4 "bob"
    ∷ []

abbrev boards : SortedSet
boards = run_calls le calls new_set

boards-IsCoherent : IsCoherent le boards
boards-IsCoherent = calls-IsCoherent le calls new_set (new_set-IsCoherent le)

run_calls-IsOrdered_example :
    ((sorted le "lb:quiz:us" boards).0 ≡ sort le (members_of (set_at "lb:quiz:us" boards)))
    × IsOrdered le (sorted le "lb:quiz:us" boards).0
    × Perm (sorted le "lb:quiz:us" boards).0 (members_of (set_at "lb:quiz:us" boards))
run_calls-IsOrdered_example = run_calls-IsOrdered le calls "lb:quiz:us" le-IsTotal

leaderboard-board_example :
    (leaderboard le "quiz" "us" 0 boards).0
    ≡ ranked_from 0 (reverse (sort le (members_of (set_at (board_key "quiz" "us") boards))))
leaderboard-board_example = leaderboard-board le "quiz" "us" 0 boards boards-IsCoherent
