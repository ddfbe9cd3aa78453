-- ===== src/Cache/Dispatch.antt =====
-- `DataHandler.dispatch` of src/infra/data_handler.py and `normalize_backend_name` of
-- src/core/honeypot_utils.py: the choice of a backend by the longest matching route.
pub mod Longest
use honey_mind.Prelude.{
  ℕ, ◌≤◌, Text, codes, eqb, lower, strip, starts_with, length, leb, first_of?, map, reverse, get_or,
  Bool, true, false, ◌||◌, ◌&&◌, not, ◌==◌, space, List, [], ◌∷◌, ◌++◌, if◌then◌else◌, Option, none,
  some,
}

abbrev pub slash_code : ℕ
slash_code = b'/'

-- `s.rstrip("/")`, on the reversed text first
drop_slashes : Text → Text
drop_slashes [] = []
drop_slashes (c ∷ s) = let rest = drop_slashes s in if c == slash_code then rest else c ∷ s

unfoldable pub rstrip_slash : Text → Text
unfolding drop_slashes
rstrip_slash s = reverse (drop_slashes (reverse s))

-- `s or t`
unfoldable pub text_or : Text → Text → Text
text_or [] t = t
text_or (c ∷ s) t = c ∷ s

pub record Route : Type 0 where
  pub path : Option Text
  pub name : Option Text

pub record Query : Type 0 where
  pub routing_key : Option Text
  pub honeypots : List Text

-- the key that `sorted` sorts by
unfoldable pub path_length : Route → ℕ
unfolding rstrip_slash
path_length r = length (lower (rstrip_slash (get_or r.path [])))

-- `sorted(…, reverse=True)`, which keeps the order of routes of one length
unfoldable pub insert_route : Route → List Route → List Route
unfolding path_length
insert_route r [] = r ∷ []
insert_route r (q ∷ rs) =
    let rest = insert_route r rs in
    if leb (path_length q) (path_length r) then r ∷ q ∷ rs else q ∷ rest

unfoldable pub sort_routes : List Route → List Route
unfolding insert_route
sort_routes [] = []
sort_routes (r ∷ rs) = insert_route r (sort_routes rs)

unfoldable pub route_path : Route → Text
unfolding rstrip_slash text_or
route_path r = text_or (rstrip_slash (lower (get_or r.path []))) (codes "/")

-- `is_root or is_bound`
unfoldable pub is_match : Text → Route → Bool
unfolding route_path
is_match key r =
    (eqb (route_path r) (codes "/") && eqb key (codes "/"))
    || (not (eqb (route_path r) (codes "/"))
        && (eqb key (route_path r) || starts_with key (route_path r ++ codes "/")))

underscored : ℕ → ℕ
underscored c = if (c == space) || (c == b'-') then b'_' else c

-- on a text; the code also takes dictionaries
unfoldable pub normalize_backend_name : Text → Text
unfolding underscored
normalize_backend_name raw = map underscored (lower (strip raw))

first_backend : List Text → Option Text
first_backend [] = none
first_backend (h ∷ hs) = some h

named_backend : Text → List Text → Option Text
unfolding first_backend
named_backend [] honeypots = none
named_backend (c ∷ name) honeypots =
    if eqb (c ∷ name) (codes "unknown") then first_backend honeypots else some (c ∷ name)

route_backend : Option Route → List Text → Option Text
unfolding named_backend normalize_backend_name
route_backend none honeypots = first_backend honeypots
route_backend (some r) honeypots =
    named_backend (normalize_backend_name (get_or r.name [])) honeypots

unfoldable pub key_of : Option Text → Text
unfolding rstrip_slash text_or
key_of routing_key =
    text_or (rstrip_slash (lower (text_or (get_or routing_key []) (codes "/")))) (codes "/")

unfoldable pub chosen_route : List Route → Text → Option Route
unfolding sort_routes is_match
chosen_route routes key = first_of? (is_match key) (sort_routes routes)

-- `dispatch`
unfoldable pub dispatch : List Route → Query → Option Text
unfolding chosen_route route_backend key_of
dispatch routes q = route_backend (chosen_route routes (key_of q.routing_key)) q.honeypots
