-- ===== src/App/Routing/Unique.antt =====
-- fastapi_app/main.py: the routes of the application do not overlap, so that their order does not
-- matter.
use native.Mathlib.Decide.{ℕ_discrete}
use fastapi_project.Prelude.{
  String, ◌≡◌, ◌≢◌, inl, inr, refl, ap, sym, ◌∙◌, Bool, true, false, not, ◌&&◌, none, some, List,
  [], ◌∷◌, ◌==◌, eq_iff, Option-cases, arith, All,
}
use fastapi_project.App.Routing.{
  Method, http_get, http_post, http_delete, Piece, literal, parameter, Route, app_routes,
  match_path, Matches, IsIn, Router,
}

abbrev same_method : Method → Method → Bool
same_method http_get http_get = true
same_method http_post http_post = true
same_method http_delete http_delete = true
same_method _ _ = false

-- Some piece is of both.
abbrev overlap_at : Piece → Piece → Bool
overlap_at (literal t) (literal u) = t == u
overlap_at (literal t) parameter = not (t == "")
overlap_at parameter (literal t) = not (t == "")
overlap_at parameter parameter = true

abbrev overlap : List Piece → List Piece → Bool
overlap [] [] = true
overlap (p ∷ ps) (q ∷ qs) = let rest = overlap ps qs in overlap_at p q && rest
overlap _ _ = false

abbrev clash : Route → Route → Bool
clash r q = same_method r.method q.method && overlap r.path q.path

match_path-overlap :
    (ps qs : List Piece) (xs : List String)
    → match_path ps xs ≢ none
    → match_path qs xs ≢ none
    → overlap ps qs ≡ true
unfolding match_path
match_path-overlap [] [] [] h k = refl
match_path-overlap [] (q ∷ qs) [] h k = ground arith
match_path-overlap (p ∷ ps) qs [] h k = ground arith
match_path-overlap [] qs (x ∷ xs) h k = ground arith
match_path-overlap (p ∷ ps) [] (x ∷ xs) h k = ground arith
match_path-overlap (literal t ∷ ps) (literal u ∷ qs) (x ∷ xs) h k =
    ground (arith, eq_iff t x, eq_iff u x, eq_iff t u, match_path-overlap ps qs xs)
match_path-overlap (literal t ∷ ps) (parameter ∷ qs) (x ∷ xs) h k =
    ground (arith, eq_iff t x, eq_iff x "", eq_iff t "", match_path-overlap ps qs xs)
match_path-overlap (parameter ∷ ps) (literal u ∷ qs) (x ∷ xs) h k =
    ground (arith, eq_iff u x, eq_iff x "", eq_iff u "", match_path-overlap ps qs xs)
match_path-overlap (parameter ∷ ps) (parameter ∷ qs) (x ∷ xs) h k =
    ground (arith, match_path-overlap ps qs xs)

Matches-clash :
    (r q : Route) (m : Method) (p : List String) (a b : List String)
    → Matches r m p a
    → Matches q m p b
    → clash r q ≡ true
Matches-clash r q m p a b (h, h') (k, k') = ground (arith, match_path-overlap r.path q.path p)

-- No later route clashes with an earlier one.
abbrev IsSeparate : List Route → Type 0
IsSeparate [] = Unit
IsSeparate (r ∷ rs) = All (λ q. clash r q ≡ false) rs × IsSeparate rs

app_routes-IsSeparate : IsSeparate app_routes
unfolding app_routes ℕ_discrete
app_routes-IsSeparate = ground arith

All-IsIn : (P : Route → Type 0) (rs : List Route) (q : Route) → All P rs → IsIn q rs → P q
All-IsIn P [] q h i = absurd i
All-IsIn P (r ∷ rs) q h (inl same) = rw same h.0
All-IsIn P (r ∷ rs) q h (inr later) = All-IsIn P rs q h.1 later

IsSeparate-unique :
    (rs : List Route) (r q : Route) (m : Method) (p : List String) (a b : List String)
    → IsSeparate rs
    → IsIn r rs
    → IsIn q rs
    → Matches r m p a
    → Matches q m p b
    → r ≡ q
IsSeparate-unique [] r q m p a b s i j h k = absurd i
IsSeparate-unique (x ∷ rs) r q m p a b s (inl here) (inl also) h k = here ∙ sym also
IsSeparate-unique (x ∷ rs) r q m p a b s (inl here) (inr later) h k =
    let apart : clash x q ≡ false = All-IsIn (λ y. clash x y ≡ false) rs q s.0 later in
    absurd (cc (apart, Matches-clash r q m p a b h k, ap (λ y. clash y q) here))
IsSeparate-unique (x ∷ rs) r q m p a b s (inr later) (inl here) h k =
    let apart : clash x r ≡ false = All-IsIn (λ y. clash x y ≡ false) rs r s.0 later in
    absurd (cc (apart, Matches-clash q r m p b a k h, ap (λ y. clash y r) here))
IsSeparate-unique (x ∷ rs) r q m p a b s (inr i) (inr j) h k =
    IsSeparate-unique rs r q m p a b s.1 i j h k

-- If a route of the application matches a request, then the router finds that one, with the values
-- of its parameters, whichever of the matching routes it looks for: the routes do not overlap, so
-- that their order does not matter.
pub found_route :
    (router : Router) (r : Route) (m : Method) (p : List String) (args : List String)
    → IsIn r app_routes
    → Matches r m p args
    → router.find_route app_routes m p ≡ some (r, args)
found_route router r m p args i h = elim (Option-cases (router.find_route app_routes m p)) [
  | inl missed ↦ absurd (router.find_route_complete app_routes m p r args i h missed)
  | inr ((q, b), found) ↦
      let (j, k) = router.find_route_sound app_routes m p found in
      let same : r ≡ q =
        IsSeparate-unique app_routes r q m p args b app_routes-IsSeparate i j h k in
      cc (found, same, h.1, k.1, ap (λ (x : Route). match_path x.path p) same)
]
