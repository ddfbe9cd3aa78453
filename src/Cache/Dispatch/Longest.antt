-- ===== src/Cache/Dispatch/Longest.antt =====
-- The route that `dispatch` (src/infra/data_handler.py) takes.
use honey_mind.Prelude.{
  ◌≤◌, Text, leb, first_of?, All, get_or, keep, ap, Bool, true, false, List, [], ◌∷◌, if◌then◌else◌,
  some, ◌≡◌, refl, arith,
}
use honey_mind.Cache.Dispatch.{
  Route, path_length, insert_route, sort_routes, is_match, chosen_route,
}

-- every later route is at most as long
IsSorted : List Route → Type 0
IsSorted [] = Unit
IsSorted (r ∷ rs) = All (λ q. path_length q ≤ path_length r) rs × IsSorted rs

module _ (P : Route → Type 0) where
  All-insert_route : (r : Route) (rs : List Route) → P r → All P rs → All P (insert_route r rs)
  unfolding insert_route
  All-insert_route r [] pr all = (pr, tt)
  All-insert_route r (q ∷ rs) pr (pq, all) = ground (arith, All-insert_route r rs pr all)

  All-insert_route_back : (r : Route) (rs : List Route) → All P (insert_route r rs) → P r × All P rs
  unfolding insert_route
  All-insert_route_back r [] (pr, _) = (pr, tt)
  All-insert_route_back r (q ∷ rs) all =
      split (leb (path_length q) (path_length r)) (All-insert_route_back r rs) all
    where
      split :
          (b : Bool)
          → (All P (insert_route r rs) → P r × All P rs)
          → All P (if b then r ∷ q ∷ rs else q ∷ insert_route r rs)
          → P r × (P q × All P rs)
      split true back (pr, rest) = (pr, rest)
      split false back (pq, rest) = let (pr, all') = back rest in (pr, (pq, all'))

  All-sort_routes_back : (rs : List Route) → All P (sort_routes rs) → All P rs
  unfolding sort_routes
  All-sort_routes_back [] all = tt
  All-sort_routes_back (r ∷ rs) all =
      let (pr, rest) = All-insert_route_back r (sort_routes rs) all in
      (pr, All-sort_routes_back rs rest)

All-imp :
    {P Q : Route → Type 0} (step : (q : Route) → P q → Q q) (rs : List Route) → All P rs → All Q rs
All-imp step [] _ = tt
All-imp step (q ∷ rs) (pq, all) = (step q pq, All-imp step rs all)

insert_route-IsSorted : (r : Route) (rs : List Route) → IsSorted rs → IsSorted (insert_route r rs)
unfolding insert_route IsSorted
insert_route-IsSorted r [] _ = (tt, tt)
insert_route-IsSorted r (q ∷ rs) (below, sorted) =
    split (leb (path_length q) (path_length r)) refl (insert_route-IsSorted r rs sorted)
  where
    split :
        (b : Bool)
        → leb (path_length q) (path_length r) ≡ b
        → IsSorted (insert_route r rs)
        → IsSorted (if b then r ∷ q ∷ rs else q ∷ insert_route r rs)
    split true le _ = (
      (
        ground arith,
        All-imp {P = λ p. path_length p ≤ path_length q} {Q = λ p. path_length p ≤ path_length r}
            (λ p h. ground arith) rs below,
      ),
      (below, sorted),
    )
    split false gt rest =
        (All-insert_route (λ p. path_length p ≤ path_length q) r rs (ground arith) below, rest)

sort_routes-IsSorted : (rs : List Route) → IsSorted (sort_routes rs)
unfolding sort_routes IsSorted
sort_routes-IsSorted [] = tt
sort_routes-IsSorted (r ∷ rs) = insert_route-IsSorted r (sort_routes rs) (sort_routes-IsSorted rs)

first_of?-longest :
    (key : Text) (r : Route) (rs : List Route)
    → IsSorted rs
    → first_of? (is_match key) rs ≡ some r
    → All (λ q. is_match key q ≡ true → path_length q ≤ path_length r) rs
unfolding IsSorted
first_of?-longest key r [] _ found = tt
first_of?-longest key r (q ∷ rs) (below, sorted) found =
    split (is_match key q) refl (first_of?-longest key r rs sorted) found
  where
    split :
        (b : Bool)
        → is_match key q ≡ b
        → (first_of? (is_match key) rs ≡ some r
            → All (λ p. is_match key p ≡ true → path_length p ≤ path_length r) rs)
        → (if b then some q else first_of? (is_match key) rs) ≡ some r
        → All (λ p. is_match key p ≡ true → path_length p ≤ path_length r) (q ∷ rs)
    split true is later chosen =
        let same = ap (λ o. path_length (get_or o q)) chosen in
        (
          (λ _. omega (arith, same)),
          All-imp {P = λ p. path_length p ≤ path_length q}
              {Q = λ p. is_match key p ≡ true → path_length p ≤ path_length r}
              (λ p h _. omega (arith, same, h)) rs below,
        )
    split false not_it later chosen = ((λ yes. cc), later chosen)

All-keep_imp :
    (P : Route → Type 0) (p : Route → Bool) (rs : List Route)
    → All (λ q. p q ≡ true → P q) rs
    → All P (keep p rs)
All-keep_imp P p [] _ = tt
All-keep_imp P p (q ∷ rs) (h, all) = split (p q) h (All-keep_imp P p rs all)
  where
    split :
        (b : Bool)
        → (b ≡ true → P q)
        → All P (keep p rs)
        → All P (if b then q ∷ keep p rs else keep p rs)
    split true here rest = (here refl, rest)
    split false here rest = rest

-- The route that `dispatch` goes by is at least as long as every configured route that matches the
-- key.
pub chosen_route-longest :
    (routes : List Route) (key : Text) (r : Route)
    → chosen_route routes key ≡ some r
    → All (λ q. path_length q ≤ path_length r) (keep (is_match key) routes)
unfolding chosen_route
chosen_route-longest routes key r chosen =
    All-keep_imp (λ q. path_length q ≤ path_length r) (is_match key) routes
      (All-sort_routes_back (λ q. is_match key q ≡ true → path_length q ≤ path_length r) routes
        (first_of?-longest key r (sort_routes routes) (sort_routes-IsSorted routes) chosen))
