-- ===== src/Services/Projects.antt =====
-- app/services/projects.py: every statement filters by the organization and by `_is_member`.
use tenantforge.Model.Tables.{
  Uuid, Project, FieldName, ResourceType, World, fields, project_created, project_updated,
  project_deleted,
}
use tenantforge.Model.Errors.{not_found_error, forbidden_error, forbidden, project_not_found}
use tenantforge.Model.Time.{Datetime, stamp, as_utc}
use tenantforge.Model.Enums.{ProjectStatus}
use tenantforge.Prelude.{
  Bool, ◌&&◌, ◌||◌, Option, none, some, List, [], ◌∷◌, ◌++◌, ltb, ◌==◌, scalar, select, exists,
  update_where, delete_where, order_by, Text,
}
use tenantforge.Session.{Action, Done, pure, gets, modify, find, ensure_that, ◌>>=◌, ◌>>◌}
use tenantforge.Services.Rows.{touch_project, member_is, add_project}
use tenantforge.Services.Audit.{write_audit}

pub record ProjectCreate : Type 0 where
  pub name : Text
  pub description : Option Text

-- A field that is not set is `none`; the description may be set to null.
pub record ProjectUpdate : Type 0 where
  pub name : Option Text
  pub description : Option (Option Text)
  pub status : Option ProjectStatus

-- `_is_member`
abbrev pub is_member : Uuid → Uuid → World → Bool
is_member o user w = exists (member_is o user) w.memberships

unfoldable pub create_project : Uuid → Uuid → ProjectCreate → Action Project
create_project o actor payload = do
  ensure_that (is_member o actor) (forbidden_error forbidden)
  project ← add_project o payload.name payload.description actor
  write_audit o (some actor) project_created ResourceType.project project.id [] none
  pure project

-- `.order_by(Project.created_at, Project.id)`
abbrev pub older_project : Project → Project → Bool
older_project a b =
    ltb (stamp (as_utc a.created_at)) (stamp (as_utc b.created_at))
    || (stamp (as_utc a.created_at) == stamp (as_utc b.created_at)) && ltb a.id b.id

unfoldable pub list_projects : Uuid → Uuid → Action (List Project)
list_projects o actor = gets λ w.
    order_by older_project
      (select (λ r. (r.organization_id == o) && is_member o actor w) w.projects)

-- The filter of a single project.
abbrev pub visible_project : Uuid → Uuid → Uuid → World → Option Project
visible_project o i actor w =
    scalar (λ r. (r.id == i) && (r.organization_id == o) && is_member o actor w) w.projects

unfoldable pub get_project : Uuid → Uuid → Uuid → Action Project
get_project o i actor = find (visible_project o i actor) (not_found_error project_not_found)

abbrev pub keep_or {ℓ} : {A : Type ℓ} → Option A → A → A
keep_or none old = old
keep_or (some new) old = new

abbrev pub field_set {ℓ} : {A : Type ℓ} → Option A → FieldName → List FieldName
field_set none f = []
field_set (some _) f = f ∷ []

-- `setattr` for each field that is set, as the flush at `now` writes it.
abbrev pub changed_project : Datetime → ProjectUpdate → Project → Project
changed_project now u r = touch_project now r (record r {
  name = keep_or u.name r.name;
  description = keep_or u.description r.description;
  status = keep_or u.status r.status;
})

-- `sorted(changes)`
abbrev pub changed_project_fields : ProjectUpdate → List FieldName
changed_project_fields u =
    field_set u.description FieldName.description
    ++ (field_set u.name FieldName.name ++ field_set u.status FieldName.status)

abbrev pub save_project : Project → World → World
save_project r w = record w { projects = update_where (λ x. x.id == r.id) (λ _. r) w.projects }

abbrev pub drop_project : Uuid → World → World
drop_project i w = record w { projects = delete_where (λ x. x.id == i) w.projects }

unfoldable pub update_project : Uuid → Uuid → Uuid → ProjectUpdate → Action Project
update_project o i actor payload = do
  project ← find (visible_project o i actor) (not_found_error project_not_found)
  now ← gets λ w. w.clock
  modify (save_project (changed_project now payload project))
  write_audit o (some actor) project_updated ResourceType.project project.id
      (fields (changed_project_fields payload) ∷ []) none
  pure (changed_project now payload project)

unfoldable pub delete_project : Uuid → Uuid → Uuid → Action Done
delete_project o i actor = do
  project ← find (visible_project o i actor) (not_found_error project_not_found)
  write_audit o (some actor) project_deleted ResourceType.project project.id [] none
  modify (drop_project project.id)
