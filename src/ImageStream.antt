-- ===== src/ImageStream.antt =====
-- The ImageStream controller, simulator/src/imagestream.rs.
pub mod Settling
use picoshift.Prelude.{
  ℕ, String, Bool, true, false, not, ◌&&◌, ◌||◌, Option, none, some, List, [], ◌∷◌, is_nil, length,
  any, filter_map, first, eqb, ◌==◌, if◌then◌else◌,
}
use picoshift.Prelude.Options.{◌>>=◌, unwrap_or, keep_if}
use picoshift.Json.{get_in, str_in, array_in}
use picoshift.Json.Interface.{Serde}
use picoshift.Kube.{
  DynamicObject, Result, ok, err, Action, await_change, Exec, pure, send, ◌>>=◌ as then_call,
}

module _ (J : Serde) where
  open J use {Value, get, as_str, as_array, str, num, arr, obj}

  -- The tags of the spec and of the status.
  unfoldable pub spec_tags : Value → Option (List Value)
  spec_tags v = keep_if (λ ts. not (is_nil ts)) (array_in J v ("spec" ∷ "tags" ∷ []))

  unfoldable pub status_tags : Value → Option (List Value)
  status_tags v = array_in J v ("status" ∷ "tags" ∷ [])

  -- Whether a tag of the status has the name and the image of one of the spec.
  unfoldable pub tag_image : Value → String
  tag_image st =
      unwrap_or
        (array_in J st ("items" ∷ []) >>= first >>= λ item.
          str_in J item ("dockerImageReference" ∷ []))
        ""

  unfoldable pub has_tag : Value → Value → Bool
  has_tag spec_tag st =
      unwrap_or (str_in J st ("tag" ∷ [])) "" == unwrap_or (str_in J spec_tag ("name" ∷ [])) ""
      && tag_image st == unwrap_or (str_in J spec_tag ("from" ∷ "name" ∷ [])) ""

  -- The loop over the tags of the spec.
  unfoldable pub some_missing : List Value → List Value → Bool
  some_missing [] status = false
  some_missing (spec_tag ∷ spec) status =
      not (any (has_tag spec_tag) status) || some_missing spec status

  abbrev tags_differ : List Value → Option (List Value) → Bool
  tags_differ spec none = true
  tags_differ spec (some status) =
      if eqb (length spec) (length status) then some_missing spec status else true

  abbrev needs_update : Option (List Value) → Option (List Value) → Bool
  needs_update none status = false
  needs_update (some spec) status = tags_differ spec status

  unfoldable pub status_needs_update : DynamicObject J → Bool
  unfolding spec_tags status_tags some_missing
  status_needs_update is = needs_update (spec_tags is.value) (status_tags is.value)

  unfoldable pub tag_value : String → String → String → Value
  tag_value now tag_name image_ref = obj (
      ("tag", str tag_name)
      ∷ (
        "items",
        arr (
            obj (
              ("dockerImageReference", str image_ref)
              ∷ ("created", str now)
              ∷ ("generation", num 1)
              ∷ ("image", str "")
              ∷ [])
            ∷ []),
      )
      ∷ [])

  -- The status of one tag; a tag without a name or an image has none.
  unfoldable pub status_tag : String → Value → Option Value
  status_tag now tag = do
    tag_name ← str_in J tag ("name" ∷ [])
    image_ref ← str_in J tag ("from" ∷ "name" ∷ [])
    some (tag_value now tag_name image_ref)

  unfoldable pub status_patch : String → List Value → Value
  status_patch now spec = obj (
      (
        "status",
        obj (
            ("dockerImageRepository", str "")
            ∷ ("tags", arr (filter_map (status_tag now) spec))
            ∷ []),
      )
      ∷ [])

  -- The one call: a merge patch of the status.
  pub data Call : Type 0 where
    patch_status : (ns name : String) → Value → Call

  module _ (answer : List Call → Call → Result (Unit {0})) where
    abbrev patch_call : Call → Exec Call (Unit {0})
    patch_call c = send c (λ log. answer log c)

    abbrev populate : DynamicObject J → String → Option (List Value) → Exec Call Action
    populate is now none = pure await_change
    populate is now (some spec) =
        then_call
          (patch_call
            (patch_status (unwrap_or is.namespace "") is.name_any (status_patch now spec)))
          (λ _. pure await_change)

    unfoldable pub reconcile_imagestream : DynamicObject J → String → Exec Call Action
    unfolding status_needs_update
    reconcile_imagestream is now =
        if status_needs_update is then populate is now (spec_tags is.value) else pure await_change
