-- ===== src/Admission.antt =====
-- kubernetes/internal/webhook/v1alpha1/argocdchangeadmission_webhook.go: the admission of a request
-- that Argo CD makes on a resource of a governed Application.
pub mod Decision
pub mod Initialization
pub mod Tracking
use Prim.Native.Char.{code}
use quorum_based_manifests_g.Common.{
  ℕ, Bool, true, false, not, ◌&&◌, ◌||◌, List, [], ◌∷◌, Option, some, none, String, ◌+++◌, ◌==◌,
  nat_eq, Result, ok, err, with_context, if◌then◌else◌,
}
use quorum_based_manifests_g.Api.{ManifestRef}
use quorum_based_manifests_g.Api.Approval.{ManifestChangeApproval, HistoryRecord}
use quorum_based_manifests_g.Api.Template.{ManifestRequestTemplate, Application}
use quorum_based_manifests_g.Kube.{Kube, governance_finalizer}

-- What the validator reads for one request: the request's kind, what the decoder makes of its object
-- (the tracking-id annotation, empty if there is none, or the Application), and the answers of the
-- cluster. Each is read once.
pub record Request : Type 0 where
  pub kind : String
  pub decode_tracking_id : Result String
  pub decode_application : Result Application
  pub get_application : ManifestRef → Result Application
  pub list_mrts : Result (List ManifestRequestTemplate)
  pub list_mcas : Result (List ManifestChangeApproval)

-- admission.Response
pub data Response : Type 0 where
  allowed denied : String → Response
  errored : ℕ → String → Response

-- A value and a response that is not nil when the handling ends with it.
pub data Step {ℓ} (A : Type ℓ) : Type ℓ where
  respond : Response → Step A
  go_on : A → Step A

-- `initRevision`, map[types.NamespacedName]string
abbrev pub InitRevision : Type 0
InitRevision = List (ManifestRef × String)

abbrev pub same_ref : ManifestRef → ManifestRef → Bool
same_ref a b = a.name == b.name && a.namespace == b.namespace

unfoldable pub find_revision : ManifestRef → InitRevision → Option String
find_revision key [] = none
find_revision key ((k, revision) ∷ rest) =
    if same_ref k key then some revision else find_revision key rest

unfoldable pub delete_revision : ManifestRef → InitRevision → InitRevision
delete_revision key [] = []
delete_revision key ((k, revision) ∷ rest) =
    let others = delete_revision key rest in
    if same_ref k key then others else (k, revision) ∷ others

-- The text before the first colon and the text behind it.
unfoldable pub cut : String → Option (String × String)
cut String.[] = none
cut (String.◌∷◌ c s) =
    let rest = cut s in if nat_eq (code c) 58 then some ("", s) else prefixed rest
  where
    prefixed : Option (String × String) → Option (String × String)
    prefixed none = none
    prefixed (some (before, after)) = some (String.◌∷◌ c before, after)

-- `strings.SplitN(trackingID, ":", 3)` has three parts exactly if there are two colons.
abbrev pub named : String → Option (String × String) → Option (String × String)
named app_name none = none
named app_name (some parts) = some (app_name, "argocd")

abbrev pub second_colon : Option (String × String) → Option (String × String)
second_colon none = none
second_colon (some (app_name, rest)) = named app_name (cut rest)

unfoldable pub parse_tracking_id : String → Option (String × String)
unfolding cut
parse_tracking_id tracking_id = second_colon (cut tracking_id)

abbrev pub fetched_application : ManifestRef → Result Application → Step Application
fetched_application key (ok application) = go_on application
fetched_application key (err e) =
    respond
      (errored 500 (with_context ("get Application " +++ key.namespace +++ ":" +++ key.name) e))

abbrev pub tracked : Request → String → Option (String × String) → Step Application
tracked req tracking_id none =
    respond (errored 400 ("invalid tracking-id format: " +++ tracking_id))
tracked req tracking_id (some (app_name, app_namespace)) =
    let key : ManifestRef = record { name = app_name; namespace = app_namespace } in
    fetched_application key (req.get_application key)

abbrev pub from_tracking_id : Request → Result String → Step Application
from_tracking_id req (err e) = respond (errored 400 e)
from_tracking_id req (ok tracking_id) =
    if tracking_id == ""
    then respond
        (denied "ArgoCD tracking-id not found; unable to verify approval for this resource")
    else tracked req tracking_id (parse_tracking_id tracking_id)

abbrev pub decoded : Result Application → Step Application
decoded (ok application) = go_on application
decoded (err e) = respond (errored 400 e)

unfoldable pub get_application : Request → Step Application
unfolding parse_tracking_id
get_application req =
    if not (req.kind == "Application")
    then from_tracking_id req req.decode_tracking_id
    else decoded req.decode_application

unfoldable pub first_mrt :
    Application → List ManifestRequestTemplate → Option ManifestRequestTemplate
first_mrt application [] = none
first_mrt application (mrt ∷ mrts) =
    if not (mrt.spec.application.name == application.name)
      || not (mrt.spec.application.namespace == application.namespace)
    then first_mrt application mrts
    else some mrt

unfoldable pub first_mca :
    ManifestRequestTemplate → List ManifestChangeApproval → Option ManifestChangeApproval
first_mca mrt [] = none
first_mca mrt (mca ∷ mcas) =
    if mca.metadata.name == mrt.spec.mca.name && mca.metadata.namespace == mrt.spec.mca.namespace
    then some mca
    else first_mca mrt mcas

abbrev pub governing : Option ManifestRequestTemplate → Step ManifestRequestTemplate
governing none = respond (allowed "No governing MRT found, allow by default")
governing (some mrt) = go_on mrt

abbrev pub governed :
    Application → Result (List ManifestRequestTemplate) → Step ManifestRequestTemplate
governed application (err e) =
    respond (errored 500 (with_context "list ManifestRequestTemplates" e))
governed application (ok mrts) = governing (first_mrt application mrts)

-- `validateAndGetMRT` with `getMRTForApplication`
unfoldable pub validate_and_get_mrt : Request → Application → Step ManifestRequestTemplate
unfolding first_mrt
validate_and_get_mrt req application = governed application req.list_mrts

abbrev pub ongoing : Option String → Option String → String
ongoing (some revision) _ = revision
ongoing none (some revision) = revision
ongoing none none = ""

unfoldable pub get_revision_from_application : Application → String
get_revision_from_application application =
    ongoing application.operation_state_sync application.operation_sync

unfoldable pub find_record : String → List HistoryRecord → Option HistoryRecord
find_record revision [] = none
find_record revision (r ∷ history) =
    if r.commit_sha == revision then some r else find_record revision history

abbrev pub latest : String → ManifestChangeApproval → Option HistoryRecord → Response
latest revision mca none =
    denied
      ("Change from commit " +++ revision +++ " has not been approved by the governance board.")
latest revision mca (some r) =
    if not (r.commit_sha == mca.spec.commit_sha)
    then denied (
        "Change from commit " +++ revision +++ " doesn't equal the last approved commit "
        +++ mca.spec.commit_sha +++ " in MCA.")
    else allowed "Change approved by Manifest Change Approval"

unfoldable pub check_revision_approval_status : String → ManifestChangeApproval → Response
unfolding find_record
check_revision_approval_status revision mca =
    latest revision mca (find_record revision mca.status.approval_history)

abbrev pub of_mca : String → Option ManifestChangeApproval → Response
of_mca revision none = denied "No MCA found for MRT, deny by default"
of_mca revision (some mca) = check_revision_approval_status revision mca

abbrev pub approval :
    ManifestRequestTemplate → String → Result (List ManifestChangeApproval) → Response
approval mrt revision (err e) = errored 500 (with_context "list ManifestChangeApproval" e)
approval mrt revision (ok mcas) = of_mca revision (first_mca mrt mcas)

-- `validateRevisionApproval` with `getMCAForMRT`
unfoldable pub validate_revision_approval : Request → ManifestRequestTemplate → String → Response
unfolding first_mca check_revision_approval_status
validate_revision_approval req mrt revision = approval mrt revision req.list_mcas

abbrev pub key_of : ManifestRequestTemplate → ManifestRef
key_of mrt = record { name = mrt.metadata.name; namespace = mrt.metadata.namespace }

module _ (kube : Kube) where
  -- The response for a template that is not initialized, from its entry in the map; the two tests of
  -- the source exclude each other and leave nothing.
  abbrev pub on_initialization : Option String → String → Response
  on_initialization none revision = allowed "Governance initialization revision, allow by default"
  on_initialization (some init_revision) revision =
      if not (init_revision == revision)
      then denied "Governing MRT not initialized yet, deny by default"
      else allowed "Governance initialization revision, allow by default"

  unfoldable pub validate_mrt_initialization :
      ManifestRequestTemplate → String → InitRevision → Option Response × InitRevision
  unfolding find_revision delete_revision
  validate_mrt_initialization mrt revision init_revision =
      if not (kube.contains_finalizer mrt.metadata governance_finalizer)
      then (
        some (on_initialization (find_revision (key_of mrt) init_revision) revision),
        init_revision,
      )
      else (none, delete_revision (key_of mrt) init_revision)

  abbrev pub after_initialization :
      Request
      → ManifestRequestTemplate
      → String
      → Option Response × InitRevision
      → Response × InitRevision
  after_initialization req mrt revision (some resp, init_revision) = (resp, init_revision)
  after_initialization req mrt revision (none, init_revision) =
      (validate_revision_approval req mrt revision, init_revision)

  abbrev pub with_mrt :
      Request → Application → InitRevision → Step ManifestRequestTemplate → Response × InitRevision
  with_mrt req application init_revision (respond resp) = (resp, init_revision)
  with_mrt req application init_revision (go_on mrt) =
      let revision = get_revision_from_application application in
      after_initialization req mrt revision (validate_mrt_initialization mrt revision init_revision)

  abbrev pub with_application : Request → InitRevision → Step Application → Response × InitRevision
  with_application req init_revision (respond resp) = (resp, init_revision)
  with_application req init_revision (go_on application) =
      with_mrt req application init_revision (validate_and_get_mrt req application)

  unfoldable pub handle : Request → InitRevision → Response × InitRevision
  unfolding get_application validate_and_get_mrt get_revision_from_application
      validate_mrt_initialization validate_revision_approval
  handle req init_revision = with_application req init_revision (get_application req)

  -- The requests that one validator serves, in turn: its map after them.
  unfoldable pub serve : List Request → InitRevision → InitRevision
  unfolding handle
  serve [] init_revision = init_revision
  serve (req ∷ reqs) init_revision = serve reqs (handle req init_revision).1
