-- ===== src/Admission/Tracking.antt =====
-- The tracking-id that Argo CD writes on a resource, and what is read from it.
use quorum_based_manifests_g.Common.{false, some, String, ◌+++◌, ◌≡◌, refl, nat_eq}
use Prim.Native.Char.{code}
use text.Mathlib.TextLemmas.{nil-append, cons-append}
use quorum_based_manifests_g.Admission.{cut, parse_tracking_id}

-- No character of the text is a colon.
abbrev pub HasNoColon : String → Type 0
HasNoColon String.[] = Unit
HasNoColon (String.◌∷◌ c s) = (nat_eq (code c) 58 ≡ false) × HasNoColon s

pub cut-append : (s t : String) → HasNoColon s → cut (s +++ (":" +++ t)) ≡ some (s, t)
unfolding cut
cut-append String.[] t h =
    rw (nil-append (":" +++ t), cons-append ":" String.[] t, nil-append t) refl
cut-append (String.◌∷◌ c s) t h = rw (cons-append c s (":" +++ t), h.0, cut-append s t h.1) refl

-- The tracking-id of a resource, the Application's name, the group and kind, and the resource's name,
-- each with a colon between, reads as the Application's name in the namespace of Argo CD, if neither
-- of the first two has a colon.
pub parse-tracking_id_lem :
    (app_name kind resource : String)
    → HasNoColon app_name
    → HasNoColon kind
    → parse_tracking_id (app_name +++ (":" +++ (kind +++ (":" +++ resource))))
      ≡ some (app_name, "argocd")
unfolding parse_tracking_id
parse-tracking_id_lem app_name kind resource h k =
    rw (cut-append app_name (kind +++ (":" +++ resource)) h, cut-append kind resource k) refl
