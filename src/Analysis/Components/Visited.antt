-- ===== src/Analysis/Components/Visited.antt =====
-- The order of nodes in which each stands where it is entered and where it is left.
use egalito.Base.{
  refl, ℕ, ◌+◌, ◌≡◌, ◌∙◌, sym, ap, List, [], ◌∷◌, ◌++◌, arith, append_assoc, append-nil,
}
use egalito.Base.Result.{ok}
use egalito.Analysis.Walker.{
  node_collector, pre_postorder, FinishType, change_lap, pre_visit, post_visit,
}
use egalito.Analysis.Walker.Trace.{Event, entered, left, seen_again, handle, handle_all}
use egalito.Analysis.Walker.Orders.{entered_ids, left_ids, count}
use egalito.Analysis.Walker.Reachable.{one_list}

-- Each node where it is entered and where it is left.
abbrev pub visited_ids : List Event → List ℕ
visited_ids [] = []
visited_ids (entered n ∷ es) = n.id ∷ visited_ids es
visited_ids (left n ∷ es) = n.id ∷ visited_ids es
visited_ids (seen_again n l ∷ es) = visited_ids es

pub visited_ids-handle_all :
    (f : FinishType) (es : List Event) (order : List ℕ)
    → handle_all (node_collector pre_postorder f) es (one_list order)
      ≡ ok (one_list (order ++ visited_ids es))
unfolding handle_all handle node_collector change_lap pre_visit post_visit
visited_ids-handle_all f [] order = ap (λ o. ok (one_list o)) (sym (append-nil order))
visited_ids-handle_all f (entered n ∷ es) order =
    visited_ids-handle_all f es (order ++ n.id ∷ [])
    ∙ ap (λ o. ok (one_list o)) (append_assoc order (n.id ∷ []) (visited_ids es))
visited_ids-handle_all f (left n ∷ es) order =
    visited_ids-handle_all f es (order ++ n.id ∷ [])
    ∙ ap (λ o. ok (one_list o)) (append_assoc order (n.id ∷ []) (visited_ids es))
visited_ids-handle_all f (seen_again n l ∷ es) order = visited_ids-handle_all f es order

pub count-visited_ids :
    (x : ℕ) (es : List Event)
    → count x (visited_ids es) ≡ count x (entered_ids es) + count x (left_ids es)
count-visited_ids x [] = omega arith
count-visited_ids x (entered n ∷ es) = omega (arith, count-visited_ids x es)
count-visited_ids x (left n ∷ es) = omega (arith, count-visited_ids x es)
count-visited_ids x (seen_again n l ∷ es) = count-visited_ids x es

pub visited_ids-append :
    (es fs : List Event) → visited_ids (es ++ fs) ≡ visited_ids es ++ visited_ids fs
visited_ids-append [] fs = refl
visited_ids-append (entered n ∷ es) fs = ap (◌∷◌ n.id) (visited_ids-append es fs)
visited_ids-append (left n ∷ es) fs = ap (◌∷◌ n.id) (visited_ids-append es fs)
visited_ids-append (seen_again n l ∷ es) fs = visited_ids-append es fs
