-- ===== src/Router/Reading.antt =====
-- The server reads a rendered path back as the parts that it was rendered from.
use Prim.Native.Char.{Char}
use Prim.Native.String.{String, [], ◌∷◌}
use mathlib.Core.List.{List, [], ◌∷◌}
use text.Mathlib.TextLemmas.{nil-append, cons-append, append_assoc, append-nil}
use nixway_core.Prelude.{Bool, true, ◌&&◌, ◌≡◌, refl, ap, ◌∙◌, arith, Option, none, some, ◌<>◌, map}
use nixway_core.Endpoints.Types.{Part, Request, text_of, render, query_text, path}
use nixway_core.Router.Target.{is_plain, all_plain, is_segment, push, segments_from, segments}

push-append : (cur : String) (c : Char) (s : String) → push cur c <> s ≡ cur <> (c ∷ s)
push-append cur c s =
    append_assoc cur (c ∷ []) s
    ∙ ap (λ t. cur <> t) (cons-append c [] s ∙ ap (λ t. c ∷ t) (nil-append s))

segments_from-cons :
    (cur : String) (c : Char) (s : String)
    → is_plain c ≡ true
    → segments_from cur (c ∷ s) ≡ segments_from (push cur c) s
unfolding segments_from
segments_from-cons cur c s h = ground arith

segments_from-plain :
    (cur t rest : String)
    → all_plain t ≡ true
    → segments_from cur (t <> rest) ≡ segments_from (cur <> t) rest
segments_from-plain cur [] rest h = rw (nil-append, append-nil)
segments_from-plain cur (c ∷ t) rest h =
    let plain : is_plain c ≡ true = ground arith in
    let later : all_plain t ≡ true = ground arith in
    rw (cons-append) (
      segments_from-cons cur c (t <> rest) plain
      ∙ segments_from-plain (push cur c) t rest later
      ∙ ap (λ u. segments_from u rest) (push-append cur c t))

-- texts that the parts hold
abbrev pub all_segments : List Part → Bool
all_segments [] = true
all_segments (part ∷ parts) = is_segment (text_of part) && all_segments parts

segments_from-query :
    (cur : String) (q : Option String) → segments_from cur (query_text q) ≡ cur ∷ []
unfolding segments_from
segments_from-query cur none = refl
segments_from-query cur (some q) = rw cons-append

segments_from-slash : (cur s : String) → segments_from cur ("/" <> s) ≡ cur ∷ segments_from "" s
unfolding segments_from
segments_from-slash cur s = rw (cons-append) (rw nil-append refl)

is_segment-plain : (s : String) → is_segment s ≡ true → all_plain s ≡ true
is_segment-plain s h = ground arith

segments_from-render :
    (cur : String) (parts : List Part) (q : Option String)
    → all_segments parts ≡ true
    → segments_from cur (render parts <> query_text q) ≡ cur ∷ map text_of parts
unfolding render
segments_from-render cur [] q h = rw nil-append (segments_from-query cur q)
segments_from-render cur (part ∷ parts) q h =
    let here : is_segment (text_of part) ≡ true = ground arith in
    let later : all_segments parts ≡ true = ground arith in
    rw (append_assoc) (
      segments_from-slash cur _
      ∙ ap (λ l. cur ∷ l)
          (rw append_assoc (
            segments_from-plain "" (text_of part) _ (is_segment-plain (text_of part) here)
            ∙ rw nil-append (segments_from-render (text_of part) parts q later))))

base-append : (s : String) → "/api/v1" <> s ≡ "/" <> ("api" <> ("/" <> ("v1" <> s)))
base-append s =
    append_assoc "/" "api/v1" s
    ∙ ap (λ t. "/" <> t)
        (append_assoc "api" "/v1" s ∙ ap (λ t. "api" <> t) (append_assoc "/" "v1" s))

segments-slash : (s : String) → segments ("/" <> s) ≡ segments_from "" s
unfolding segments segments_from
segments-slash s = rw (cons-append, nil-append)

-- The target of a request made below `/api/v1` is read as the segments `api`, `v1` and the texts of
-- the request's parts.
pub segments-target :
    (r : Request)
    → all_segments r.parts ≡ true
    → segments ("/api/v1" <> path r) ≡ "api" ∷ "v1" ∷ map text_of r.parts
unfolding path
segments-target r h =
    rw (base-append, segments-slash, segments_from-plain "" "api" _ refl, segments_from-slash)
      (ap (λ l. "api" ∷ l)
        (segments_from-plain "" "v1" _ refl ∙ segments_from-render "v1" r.parts r.query h))
