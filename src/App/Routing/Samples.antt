-- ===== src/App/Routing/Samples.antt =====
-- A router that takes the first route that matches.
use fastapi_project.Prelude.{
  String, ◌≡◌, ◌≢◌, ◌⊎◌, inl, inr, refl, sym, ◌∙◌, Option, none, some, List, [], ◌∷◌, arith,
  Option-cases,
}
use fastapi_project.App.Routing.{
  Method, http_get, http_post, http_delete, Route, match_path, Matches, IsIn, Router,
}

abbrev matched : Method → Method → Option (List String) → Option (List String)
matched http_get http_get o = o
matched http_post http_post o = o
matched http_delete http_delete o = o
matched _ _ o = none

abbrev with_route :
    Route → Option (List String) → Option (Route × List String) → Option (Route × List String)
with_route r none rest = rest
with_route r (some args) rest = some (r, args)

abbrev first_route : List Route → Method → List String → Option (Route × List String)
first_route [] m p = none
first_route (r ∷ rs) m p =
    let rest = first_route rs m p in with_route r (matched r.method m (match_path r.path p)) rest

matched_lem :
    (k m : Method) (o : Option (List String)) (args : List String)
    → matched k m o ≡ some args
    → (k ≡ m) × (o ≡ some args)
matched_lem http_get http_get o args h = (refl, h)
matched_lem http_post http_post o args h = (refl, h)
matched_lem http_delete http_delete o args h = (refl, h)
matched_lem http_get http_post o args h = ground arith
matched_lem http_get http_delete o args h = ground arith
matched_lem http_post http_get o args h = ground arith
matched_lem http_post http_delete o args h = ground arith
matched_lem http_delete http_get o args h = ground arith
matched_lem http_delete http_post o args h = ground arith

matched_self : (m : Method) (o : Option (List String)) → matched m m o ≡ o
matched_self http_get o = refl
matched_self http_post o = refl
matched_self http_delete o = refl

with_route_cases :
    (q r : Route) (args : List String) (o : Option (List String))
    (rest : Option (Route × List String))
    → with_route q o rest ≡ some (r, args)
    → ((r ≡ q) × (o ≡ some args)) ⊎ (rest ≡ some (r, args))
with_route_cases q r args none rest h = inr h
with_route_cases q r args (some xs) rest h = inl (cc, cc)

pub first_route_sound :
    (rs : List Route) (m : Method) (p : List String) {r : Route} {args : List String}
    → first_route rs m p ≡ some (r, args)
    → IsIn r rs × Matches r m p args
first_route_sound [] m p h = ground arith
first_route_sound (q ∷ rs) m p {r} {args} h =
    elim (with_route_cases q r args _ (first_route rs m p) h) [
      | inr later ↦ let (i, k) = first_route_sound rs m p later in (inr i, k)
      | inl (same, here) ↦
          let (k, l) = matched_lem q.method m (match_path q.path p) args here in
          (inl same, rw same (k, l))
    ]

pub first_route_complete :
    (rs : List Route) (m : Method) (p : List String) (r : Route) (args : List String)
    → IsIn r rs
    → Matches r m p args
    → first_route rs m p ≢ none
first_route_complete [] m p r args i h = absurd i
first_route_complete (q ∷ rs) m p r args (inl same) (k, l) =
    let found : matched q.method m (match_path q.path p) ≡ some args =
      rw (sym same, k) (matched_self m (match_path r.path p) ∙ l) in
    rw found (λ e. cc)
first_route_complete (q ∷ rs) m p r args (inr later) h =
    let rest = first_route_complete rs m p r args later h in
    elim (Option-cases (matched q.method m (match_path q.path p))) [
      | inl missed ↦ rw missed rest
      | inr (xs, found) ↦ rw found (λ e. cc)
    ]

abbrev pub router : Router
router = record {
  find_route = first_route;
  find_route_sound = λ rs m p {r} {args} h. first_route_sound rs m p h;
  find_route_complete = first_route_complete;
}
