-- ===== src/Auth/Projects.antt =====
-- Which project a request acts in.
use automem.Common.{◌≡◌, ◌≢◌, refl, ◌⊎◌, true, false, Option, some, List, [], ◌∷◌, arith}
use automem.Text.{Text, elem, truthy, or_empty, eq_sound, eq_refl}
use automem.Text.Normalize.{normalize_text}
use automem.Http.{ok, err, metadata_conflict}
use automem.Metadata.{Metadata}
use automem.Auth.{
  Auth, choose_project, enforce_project_identity, normalize_project_ids,
  merge_project_id_into_metadata,
}

choose_project-ok :
    (allowed : List Text) (asked answer : Option Text)
    → allowed ≢ []
    → choose_project allowed asked ≡ ok answer
    → (elem (or_empty answer) allowed ≡ true) × ((truthy asked ≡ false) ⊎ (answer ≡ asked))
unfolding choose_project
choose_project-ok [] asked answer n e = absurd (n refl)
choose_project-ok (only ∷ []) asked answer n e = unfold elem in ground (arith, eq_refl only)
choose_project-ok (p ∷ q ∷ rest) asked answer n e = ground arith

-- A key that is bound to projects acts in one of them, whatever the request names.
pub enforce_project_identity-ok :
    (auth : Auth) (asked answer : Option Text)
    → auth.is_admin ≡ false
    → normalize_project_ids auth.project_ids ≢ []
    → enforce_project_identity auth asked ≡ ok answer
    → (elem (or_empty answer) (normalize_project_ids auth.project_ids) ≡ true)
      × ((truthy asked ≡ false) ⊎ (answer ≡ asked))
unfolding enforce_project_identity
enforce_project_identity-ok auth asked answer h n e =
    choose_project-ok (normalize_project_ids auth.project_ids) asked answer n (rw h at e)

-- The metadata that is stored names the project of the request, if the request has one, and nothing
-- else of the metadata changes. The merge fails exactly if the metadata names another project.
merge_project_id_into_metadata_cases :
    (project_id : Text) (meta : Metadata)
    → truthy (some project_id) ≡ true
    → (merge_project_id_into_metadata (some project_id) meta
          ≡ ok (record meta { project_id = some project_id }))
        × ((normalize_text (or_empty meta.project_id) ≡ [])
            ⊎ (normalize_text (or_empty meta.project_id) ≡ project_id))
      ⊎ (merge_project_id_into_metadata (some project_id) meta ≡ err metadata_conflict)
        × (normalize_text (or_empty meta.project_id) ≢ [])
        × (normalize_text (or_empty meta.project_id) ≢ project_id)
unfolding merge_project_id_into_metadata
merge_project_id_into_metadata_cases project_id meta t =
    ground
      (arith, eq_sound (normalize_text (or_empty meta.project_id)) project_id, eq_refl project_id)
