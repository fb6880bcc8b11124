-- ===== src/Http/Status/TaskId.antt =====
-- Laws of task_id_from_header.
use Prim.Native.Char.{Char, char}
use text.Mathlib.TextLemmas.{nil-append, cons-append}
use redfish_ctl.Common.{String, ◌<>◌, ◌≡◌, refl, ap, ◌∙◌, Bool, true, some}
use redfish_ctl.Common.Effect
use redfish_ctl.Common.Split.{lacks, split_lacking, split_behind}
use redfish_ctl.Common.Text.{split, last_of}
use redfish_ctl.Http.{Response}
use redfish_ctl.Http.Status.{task_id_from_header}

abbrev slash : Char
slash = char b'/' tt

slash_append : (s : String) → "/" <> s ≡ String.◌∷◌ slash s
slash_append s = cons-append slash "" s ∙ ap (String.◌∷◌ slash) (nil-append s)

last_segment :
    (front id : String) → lacks b'/' id ≡ true → last_of "" (split b'/' (front <> ("/" <> id))) ≡ id
unfolding last_of
last_segment front id whole =
    let (w, v, ws, e, last) = split_behind b'/' slash front id refl in
    rw (slash_append, e) (last ∙ ap (last_of "") (split_lacking b'/' id whole))

-- From a Location header that ends in a slash and an id without one, the task id is that id,
-- in strict mode and not, whatever stands in front.
pub task_id_from_header-location :
    (response : Response) (front id : String) (strict : Bool)
    → response.location ≡ some (front <> ("/" <> id))
    → lacks b'/' id ≡ true
    → task_id_from_header response strict ≡ Effect.ok id
unfolding task_id_from_header
task_id_from_header-location response front id strict at whole =
    rw at (ap Effect.ok (last_segment front id whole))
