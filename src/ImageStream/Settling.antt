-- ===== src/ImageStream/Settling.antt =====
-- When the status that the controller writes is the one that it wants to find.
use picoshift.Prelude.{
  suc, ◌<◌, String, ◌≡◌, refl, ap, ◌∙◌, true, false, Option, none, some, List, [], ◌∷◌, length,
  length-filter_map, any-In, In, here, there, filter_map, consed, arith, eq_refl, All,
}
use picoshift.Prelude.Maps.{lookup}
use picoshift.Prelude.Options.{unwrap_or}
use picoshift.Json.{str_in}
use picoshift.Json.Interface.{Serde}
use picoshift.Kube.{DynamicObject, Result}
use picoshift.ImageStream.{
  spec_tags, status_tags, tag_image, has_tag, some_missing, status_needs_update, status_tag,
  tag_value, status_patch, Call, patch_status, reconcile_imagestream,
}

In-consed {ℓ} : {A : Type ℓ} {a : A} (o : Option A) {xs : List A} → In a xs → In a (consed o xs)
In-consed none i = i
In-consed (some y) i = there i

module _ (J : Serde) where
  -- A tag with a name and an image.
  abbrev pub IsComplete : J.Value → Type 0
  IsComplete tag =
      (name : String) × (image : String) × (str_in J tag ("name" ∷ []) ≡ some name)
      × (str_in J tag ("from" ∷ "name" ∷ []) ≡ some image)

  -- The status of the object is the patch's: a merge patch replaces arrays.
  abbrev pub IsPatched : DynamicObject J → DynamicObject J → String → List J.Value → Type 0
  IsPatched is is' now spec =
      (spec_tags J is.value ≡ some spec)
      × (spec_tags J is'.value ≡ some spec)
      × (status_tags J is'.value ≡ status_tags J (status_patch J now spec))

  status_tags-status_patch :
      (now : String) (spec : List J.Value)
      → status_tags J (status_patch J now spec) ≡ some (filter_map (status_tag J now) spec)
  unfolding status_tags status_patch lookup
  status_tags-status_patch now spec = simp (J.get-obj, J.as_array-arr)

  has_tag-tag_value :
      (now : String) (tag : J.Value) {name image : String}
      → str_in J tag ("name" ∷ []) ≡ some name
      → str_in J tag ("from" ∷ "name" ∷ []) ≡ some image
      → has_tag J tag (tag_value J now name image) ≡ true
  unfolding has_tag tag_image tag_value lookup
  has_tag-tag_value now tag named from =
      rw (named, from) (simp (J.get-obj, J.as_str-str, J.as_array-arr, eq_refl))

  status_tag_complete :
      (now : String) (tag : J.Value) {name image : String}
      → str_in J tag ("name" ∷ []) ≡ some name
      → str_in J tag ("from" ∷ "name" ∷ []) ≡ some image
      → status_tag J now tag ≡ some (tag_value J now name image)
  unfolding status_tag
  status_tag_complete now tag named from = rw (named, from)

  length_complete :
      (now : String) (spec : List J.Value)
      → All IsComplete spec
      → length (filter_map (status_tag J now) spec) ≡ length spec
  length_complete now [] h = refl
  length_complete now (tag ∷ spec) ((name, image, named, from), h) =
      rw (status_tag_complete now tag named from) (ap suc (length_complete now spec h))

  In-filter_map :
      (now : String) (tag : J.Value) (spec : List J.Value) {name image : String}
      → str_in J tag ("name" ∷ []) ≡ some name
      → str_in J tag ("from" ∷ "name" ∷ []) ≡ some image
      → In tag spec
      → In (tag_value J now name image) (filter_map (status_tag J now) spec)
  In-filter_map now tag [] named from i = elim i [ ]
  In-filter_map now tag (_ ∷ spec) named from here =
      rw (status_tag_complete now tag named from) here
  In-filter_map now tag (other ∷ spec) named from (there i) =
      In-consed (status_tag J now other) (In-filter_map now tag spec named from i)

  none_missing :
      (now : String) (all rest : List J.Value)
      → All IsComplete rest
      → ((tag : J.Value) → In tag rest → In tag all)
      → some_missing J rest (filter_map (status_tag J now) all) ≡ false
  unfolding some_missing
  none_missing now all [] h sub = refl
  none_missing now all (tag ∷ rest) ((name, image, named, from), h) sub =
      let found =
        any-In (has_tag J tag) (filter_map (status_tag J now) all)
          (In-filter_map now tag all named from (sub tag here))
          (has_tag-tag_value now tag named from) in
      rw found (none_missing now all rest h (λ t i. sub t (there i)))

  -- Where every tag of the spec has a name and an image, the controller is content with the status
  -- that it has written.
  pub status_needs_update-settled :
      (is is' : DynamicObject J) (now : String) (spec : List J.Value)
      → IsPatched is is' now spec
      → All IsComplete spec
      → status_needs_update J is' ≡ false
  unfolding status_needs_update
  status_needs_update-settled is is' now spec (before, kept, patched) h =
      rw (kept, patched ∙ status_tags-status_patch now spec, length_complete now spec h)
        (ground (arith, none_missing now spec spec h (λ t i. i)))

  length-incomplete :
      (now : String) (spec : List J.Value) {tag : J.Value}
      → In tag spec
      → status_tag J now tag ≡ none
      → length (filter_map (status_tag J now) spec) < length spec
  length-incomplete now [] i e = elim i [ ]
  length-incomplete now (tag ∷ spec) here e =
      rw e (omega (arith, length-filter_map (status_tag J now) spec))
  length-incomplete now (other ∷ spec) (there i) e =
      ground (arith, length-incomplete now spec i e, status_tag J now other)

  -- Where a tag of the spec has no name or no image, the controller is never content: it patches the
  -- status that it has written once more, and again at each further event.
  pub reconcile_imagestream-unsettled :
      (answer : List (Call J) → Call J → Result (Unit {0})) (is is' : DynamicObject J)
      (now later : String) (spec : List J.Value) (tag : J.Value) (log : List (Call J))
      → IsPatched is is' now spec
      → In tag spec
      → status_tag J now tag ≡ none
      → (reconcile_imagestream J answer is' later log).1
        ≡ patch_status (unwrap_or is'.namespace "") is'.name_any (status_patch J later spec) ∷ log
  unfolding reconcile_imagestream
  reconcile_imagestream-unsettled answer is is' now later spec tag log (before, kept, patched) i e =
      rw (kept, patched ∙ status_tags-status_patch now spec)
        (ground (arith, length-incomplete now spec i e))
