-- ===== src/Inventory/Counters.antt =====
-- The counters of a scan count the evidence that it has published.
use quantum_control.Prelude.{
  ◌≢◌, ℕ, ◌+◌, ◌≡◌, refl, sym, ap, ◌∙◌, inl, inr, Bool, true, false, ◌||◌, not, Option, none, some,
  List, [], ◌∷◌, ◌++◌, arith, eqb, if◌then◌else◌, Bool-cases, length, length-append,
}
use quantum_control.Text.{Text, text, ◌==◌, eq_iff}
use mathlib.Core.List.{append_assoc}
use quantum_control.Inventory.{
  Ownership, owned_managed, owned_external, owned_disabled, owned_unknown, Evidence,
}
use quantum_control.Inventory.Scan.{ComponentDefinition, start_scan}
use quantum_control.Inventory.Steps.{
  ServiceState, VersionProbe, FileProbe, probe_failed, missing_file, file_content, Scan,
  evidence_of, found, see_path, see_marker, see_files, see_glob, add_names, see_service_glob,
  see_service, loaded_service, versioned, see_version_file, see_version,
}
use quantum_control.Inventory.Version.{clean_version}

abbrev is_marker : Evidence → Bool
is_marker e = e.kind == text "ownership-marker"

unfoldable pub has_marker : List Evidence → Bool
has_marker [] = false
has_marker (e ∷ es) = is_marker e || has_marker es

unfoldable pub count_others : List Evidence → ℕ
count_others [] = 0
count_others (e ∷ es) = if is_marker e then count_others es else count_others es + 1

-- The ownership that the published evidence shows, and the number of failed probes where it shows
-- nothing: a marker alone is not enough to call a component managed.
unfoldable pub ownership_of_evidence : ℕ → List Evidence → Ownership
ownership_of_evidence errors [] = if eqb errors 0 then owned_disabled else owned_unknown
ownership_of_evidence errors (e ∷ es) =
    if not (has_marker (e ∷ es))
    then owned_external
    else if eqb (count_others (e ∷ es)) 0
    then owned_unknown
    else owned_managed

has_marker-append :
    (es : List Evidence) (e : Evidence) → has_marker (es ++ e ∷ []) ≡ (has_marker es || is_marker e)
unfolding has_marker
has_marker-append [] e = ground arith
has_marker-append (x ∷ es) e = ground (arith, has_marker-append es e)

count_others-append :
    (es : List Evidence) (e : Evidence)
    → count_others (es ++ e ∷ []) ≡ (if is_marker e then count_others es else count_others es + 1)
unfolding count_others
count_others-append [] e = ground arith
count_others-append (x ∷ es) e = ground (arith, count_others-append es e)

-- Among the evidence is that of a loaded service whose state was active.
pub record IsRunning (evidence : List Evidence) : Type 0 where
  pub before : List Evidence
  pub after : List Evidence
  pub state : ServiceState
  pub active : state.active_state ≡ text "active"
  pub loaded : (state.load_state ≢ []) × (state.load_state ≢ text "not-found")
  pub shown :
      evidence
      ≡ before
        ++ evidence_of (text "service") state.unit (
            state.load_state ++ (text "/" ++ (state.active_state ++ (text "/" ++ state.sub_state))))
          ∷ after

running-append : (es : List Evidence) (e : Evidence) → IsRunning es → IsRunning (es ++ e ∷ [])
running-append es e r = record {
  before = r.before;
  after = r.after ++ e ∷ [];
  state = r.state;
  active = r.active;
  loaded = r.loaded;
  shown = ap (λ l. l ++ e ∷ []) r.shown ∙ append_assoc r.before _ (e ∷ []);
}

-- The counters of a scan count its evidence.
pub record AreCounters (positive others : ℕ) (marker active : Bool) (evidence : List Evidence)
    : Type 0 where
  pub total : positive ≡ length evidence
  pub rest : others ≡ count_others evidence
  pub marked : marker ≡ has_marker evidence
  pub running : active ≡ true → IsRunning evidence

abbrev pub IsCounted : Scan → Type 0
IsCounted s = AreCounters s.positive s.non_marker s.marker s.active s.evidence

pub start-IsCounted : (d : ComponentDefinition) → IsCounted (start_scan d)
unfolding count_others has_marker
start-IsCounted d = record {
  total = refl;
  rest = refl;
  marked = refl;
  running = λ e. absurd (ground arith);
}

found-IsCounted :
    (e : Evidence) (s : Scan) → is_marker e ≡ false → IsCounted s → IsCounted (found e s)
found-IsCounted e s k c = record {
  total = omega (arith, c.total, length-append s.evidence (e ∷ []));
  rest = ground (arith, c.rest, count_others-append s.evidence e);
  marked = ground (arith, c.marked, has_marker-append s.evidence e);
  running = λ a. running-append s.evidence e (c.running a);
}

-- Every step of a scan keeps the counters right.
pub path-IsCounted :
    (path : Text) (answer : Option Bool) (s : Scan)
    → IsCounted s
    → IsCounted (see_path path answer s)
unfolding see_path text ◌==◌
path-IsCounted path none s c = c
path-IsCounted path (some false) s c = c
path-IsCounted path (some true) s c =
    found-IsCounted (evidence_of (text "path") path (text "present")) s refl c

pub marker-IsCounted :
    (path : Text) (answer : Option Bool) (s : Scan)
    → IsCounted s
    → IsCounted (see_marker path answer s)
unfolding see_marker text ◌==◌
marker-IsCounted path none s c = c
marker-IsCounted path (some false) s c = c
marker-IsCounted path (some true) s c =
    let e : Evidence = evidence_of (text "ownership-marker") path (text "present") in
    record {
      total = omega (arith, c.total, length-append s.evidence (e ∷ []));
      rest = c.rest ∙ sym (count_others-append s.evidence e);
      marked = sym (has_marker-append s.evidence e ∙ ground arith);
      running = λ a. running-append s.evidence e (c.running a);
    }

files-IsCounted : (matches : List Text) (s : Scan) → IsCounted s → IsCounted (see_files matches s)
unfolding see_files text ◌==◌
files-IsCounted [] s c = c
files-IsCounted (match ∷ rest) s c = files-IsCounted rest _ (found-IsCounted _ s refl c)

pub glob-IsCounted :
    (pattern : Text) (answer : Option (List Text)) (s : Scan)
    → IsCounted s
    → IsCounted (see_glob pattern answer s)
unfolding see_glob
glob-IsCounted pattern none s c = c
glob-IsCounted pattern (some matches) s c = files-IsCounted matches s c

names-IsCounted : (matches : List Text) (s : Scan) → IsCounted s → IsCounted (add_names matches s)
unfolding add_names
names-IsCounted [] s c = c
names-IsCounted (match ∷ rest) s c = names-IsCounted rest _ c

pub service_glob-IsCounted :
    (pattern : Text) (answer : Option (List Text)) (s : Scan)
    → IsCounted s
    → IsCounted (see_service_glob pattern answer s)
unfolding see_service_glob
service_glob-IsCounted pattern none s c = c
service_glob-IsCounted pattern (some matches) s c = names-IsCounted matches s c

loaded-IsCounted :
    (state : ServiceState) (s : Scan)
    → (state.load_state == [] || state.load_state == text "not-found") ≡ false
    → IsCounted s
    → IsCounted (loaded_service state s)
unfolding text ◌==◌
loaded-IsCounted state s l c =
    let e : Evidence =
      evidence_of (text "service") state.unit
        (state.load_state ++ (text "/" ++ (state.active_state ++ (text "/" ++ state.sub_state)))) in
    let counted : IsCounted (found e s) = found-IsCounted e s refl c in
    elim (Bool-cases (state.active_state == text "active")) [
      | inr b ↦ rw b counted
      | inl b ↦ rw b (record {
        total = counted.total;
        rest = counted.rest;
        marked = counted.marked;
        running = λ a. record {
          before = s.evidence;
          after = [];
          state = state;
          active = (eq_iff _ _).0 b;
          loaded = (
            λ e. ground (arith, eq_iff state.load_state []),
            λ e. ground (arith, eq_iff state.load_state (text "not-found")),
          );
          shown = refl;
        };
      })
    ]

pub service-IsCounted :
    (unit : Text) (answer : Option ServiceState) (s : Scan)
    → IsCounted s
    → IsCounted (see_service unit answer s)
unfolding see_service
service-IsCounted unit none s c = c
service-IsCounted unit (some state) s c =
    elim (Bool-cases (state.load_state == [] || state.load_state == text "not-found")) [
      | inl b ↦ rw (see_service, b) c
      | inr b ↦ rw (see_service, b) (loaded-IsCounted state s b c)
    ]

versioned-IsCounted :
    (kind source value : Text) (s : Scan)
    → (kind == text "ownership-marker") ≡ false
    → IsCounted s
    → IsCounted (versioned kind source value s)
versioned-IsCounted kind source value s k c = elim (Bool-cases (value == [])) [
  | inl b ↦ rw b c
  | inr b ↦ rw b (found-IsCounted (evidence_of kind source value) s k c)
]

pub version_file-IsCounted :
    (find : Text → Option Text) (path : Text) (answer : FileProbe) (s : Scan)
    → IsCounted s
    → IsCounted (see_version_file find path answer s)
unfolding see_version_file text ◌==◌
version_file-IsCounted find path probe_failed s c = c
version_file-IsCounted find path missing_file s c = c
version_file-IsCounted find path (file_content bytes) s c =
    versioned-IsCounted (text "version-file") path (clean_version find bytes) s refl c

pub version-IsCounted :
    (find : Text → Option Text) (probe : VersionProbe) (answer : Option Text) (s : Scan)
    → IsCounted s
    → IsCounted (see_version find probe answer s)
unfolding see_version text ◌==◌
version-IsCounted find probe none s c = c
version-IsCounted find probe (some output) s c =
    versioned-IsCounted (text "version") probe.command (clean_version find output) s refl c
