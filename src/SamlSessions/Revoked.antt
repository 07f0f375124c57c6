-- ===== src/SamlSessions/Revoked.antt =====
-- Sessions that are ended stay ended while others are.
use nest_id_p.Base.Lists.{find}
use nest_id_p.Base.Rows.{update_first, find-passes, find-update_first}
use nest_id_p.SamlSessions.{
  TerminationReason, SsoSession, Registry, terminate, terminate_each, terminate_all_for_user,
  terminate_all_active, is_active, session_has_id, is_status_active, ended, same_user, admin_action,
}
use nest_id_p.Base.{
  ℕ, ◌≡◌, inl, inr, refl, sym, ap, ◌∙◌, String, Bool, true, false, not, ◌&&◌, Option, none, some,
  List, [], ◌∷◌, map, arith, keep, Bool-cases, Option-cases,
}
use nest_id_p.Base.Eq.{◌==◌, nat_eq, string_eq, contains, beq_refl}
use nest_id_p.Base.Text.{is_empty}

abbrev status_of : Option SsoSession → Bool
status_of none = false
status_of (some x) = is_status_active x.status

some-injective : {A : Type 0} (a b : A) → some a ≡ some b → a ≡ b
some-injective a b h = ground (arith, h)

and_false : (b : Bool) → (b && false) ≡ false
and_false true = refl
and_false false = refl

module _ (reason : TerminationReason) (admin_id : Option String) (now : ℕ) where
  -- An update that ends a session leaves the active ones that are found as they were.
  find-ended :
      (sid id : String) (xs : List SsoSession) (y : SsoSession)
      → find (session_has_id sid) (update_first (session_has_id id) (ended reason admin_id now) xs)
        ≡ some y
      → is_status_active y.status ≡ true
      → find (session_has_id sid) xs ≡ some y
  unfolding find update_first
  find-ended sid id [] y h a = ground (arith, h)
  find-ended sid id (x ∷ xs) y h a = elim (Bool-cases (x.id == id)) [
    | inr b ↦ elim (Bool-cases (x.id == sid)) [
      | inl c ↦ rw c (rw (b, c) at h)
      | inr c ↦ rw c (find-ended sid id xs y (rw (b, c) at h) a)
    ]
    | inl b ↦ elim (Bool-cases (x.id == sid)) [
      | inr c ↦ rw c (rw (b, c) at h)
      | inl c ↦
          let z = rw (b, c) at h in
          let same = ap status_of z in
          let off : is_status_active y.status ≡ false = sym same in ground (arith, off, a)
    ]
  ]

  -- What is found under the id after a termination is not active.
  terminate-inactive :
      (id : String) (exclude : Option String) (r : Registry) (y : SsoSession)
      → find (session_has_id id) (terminate id reason admin_id exclude now r).0.sessions ≡ some y
      → is_status_active y.status ≡ false
  unfolding terminate
  terminate-inactive id exclude r y h = elim (Option-cases (find (session_has_id id) r.sessions)) [
    | inl e ↦ let z = rw (terminate, e) at h in ground (arith, z, e)
    | inr (x, e) ↦ elim (Bool-cases (is_status_active x.status)) [
      | inr b ↦
          let z = rw (terminate, e, b) at h in let same = ap status_of (sym e ∙ z) in sym same ∙ b
      | inl b ↦
          let z = rw (terminate, e, b) at h in
          let own = find-passes (session_has_id id) r.sessions x e in
          let found =
            find-update_first (session_has_id id) (ended reason admin_id now) r.sessions x e own in
          let same = ap status_of (sym found ∙ z) in sym same
    ]
  ]

  terminate-before :
      (sid id : String) (exclude : Option String) (r : Registry) (y : SsoSession)
      → find (session_has_id sid) (terminate id reason admin_id exclude now r).0.sessions ≡ some y
      → is_status_active y.status ≡ true
      → find (session_has_id sid) r.sessions ≡ some y
  unfolding terminate
  terminate-before sid id exclude r y h a =
      elim (Option-cases (find (session_has_id id) r.sessions)) [
        | inl e ↦ rw (terminate, e) at h
        | inr (x, e) ↦ elim (Bool-cases (is_status_active x.status)) [
          | inr b ↦ rw (terminate, e, b) at h
          | inl b ↦ find-ended sid id r.sessions y (rw (terminate, e, b) at h) a
        ]
      ]

  terminate-other :
      (sid id : String) (exclude : Option String) (r : Registry) (y : SsoSession)
      → find (session_has_id sid) (terminate id reason admin_id exclude now r).0.sessions ≡ some y
      → is_status_active y.status ≡ true
      → (id == sid) ≡ false
  terminate-other sid id exclude r y h a = elim (Bool-cases (id == sid)) [
    | inr b ↦ b
    | inl b ↦
        let same = (string_eq.beq_iff id sid).0 b in
        let off = terminate-inactive id exclude r y (
          ap
            (λ (i : String).
              find (session_has_id i) (terminate id reason admin_id exclude now r).0.sessions)
            same
          ∙ h) in
        ground (arith, off, a)
  ]

  -- A session that is active after a loop of terminations was found before it, and was not among
  -- those that the loop went through.
  terminate_each-before :
      (sid : String) (ids : List String) (r : Registry) (y : SsoSession)
      → find (session_has_id sid) (terminate_each reason admin_id now ids r).0.sessions ≡ some y
      → is_status_active y.status ≡ true
      → (find (session_has_id sid) r.sessions ≡ some y) × (contains sid ids ≡ false)
  unfolding terminate_each contains
  terminate_each-before sid [] r y h a = (h, refl)
  terminate_each-before sid (id ∷ ids) r y h a =
      let next = (terminate id reason admin_id none now r).0 in
      let (found, others) = terminate_each-before sid ids next y h a in
      (
        terminate-before sid id none r y found a,
        ground (arith, others, terminate-other sid id none r y found a),
      )

-- The row that is found under an id is among those that pass a test, where it passes.
contains-kept :
    (sid : String) (test : SsoSession → Bool) (xs : List SsoSession) (y : SsoSession)
    → find (session_has_id sid) xs ≡ some y
    → test y ≡ true
    → contains sid (map (λ x. x.id) (keep test xs)) ≡ true
unfolding find contains
contains-kept sid test [] y h t = ground (arith, h)
contains-kept sid test (x ∷ xs) y h t = elim (Bool-cases (x.id == sid)) [
  | inr b ↦
      let rest = contains-kept sid test xs y (rw b at h) t in
      elim (Bool-cases (test x)) [ inl c ↦ rw (c, b) rest | inr c ↦ rw c rest ]
  | inl b ↦
      let same = some-injective x y (rw b at h) in
      let passes = ap test same ∙ t in rw (passes, b) refl
]

inactive :
    (r : Registry) (sid : String) (later : ℕ)
    → ((y : SsoSession)
        → find (session_has_id sid) r.sessions ≡ some y
        → is_status_active y.status ≡ false)
    → is_active r (some sid) later ≡ false
unfolding is_active
inactive r sid later ends = elim (Option-cases (find (session_has_id sid) r.sessions)) [
  | inl e ↦ rw (e, is_active) refl
  | inr (y, e) ↦ rw (e, is_active, ends y e) (and_false (not (is_empty sid)))
]

-- Once every active session of a user has been ended, no session that belongs to the user is
-- active, at any time, whichever sessions stood in the registry.
pub terminate_all_for_user-revokes :
    (user_id : String) (reason : TerminationReason) (admin_id : Option String) (now : ℕ)
    (r : Registry) (sid : String) (y : SsoSession) (later : ℕ)
    → find (session_has_id sid) (terminate_all_for_user user_id reason admin_id now r).0.sessions
      ≡ some y
    → y.user_id ≡ some user_id
    → is_active (terminate_all_for_user user_id reason admin_id now r).0 (some sid) later ≡ false
unfolding terminate_all_for_user
terminate_all_for_user-revokes user_id reason admin_id now r sid y later found owner =
    let test : SsoSession → Bool = λ x. same_user user_id x.user_id && is_status_active x.status in
    let ids = map (λ (x : SsoSession). x.id) (keep test r.sessions) in
    inactive (terminate_all_for_user user_id reason admin_id now r).0 sid later (λ z at.
      elim (Bool-cases (is_status_active z.status)) [
        | inr b ↦ b
        | inl b ↦
            let (before, others) = terminate_each-before reason admin_id now sid ids r z at b in
            let same = some-injective y z (sym found ∙ at) in
            let owned =
              ap (λ (x : SsoSession). same_user user_id x.user_id) (sym same)
              ∙ ap (same_user user_id) owner
              ∙ beq_refl user_id in
            let listed = contains-kept sid test r.sessions z before (rw (owned, b) refl) in
            ground (arith, listed, others)
      ])

-- Once every active session has been ended, none is active, at any time.
pub terminate_all_active-revokes :
    (admin_id : Option String) (now : ℕ) (r : Registry) (sid : Option String) (later : ℕ)
    → is_active (terminate_all_active admin_id now r).0 sid later ≡ false
unfolding terminate_all_active is_active
terminate_all_active-revokes admin_id now r none later = refl
terminate_all_active-revokes admin_id now r (some sid) later =
    let test : SsoSession → Bool = λ x. is_status_active x.status in
    let ids = map (λ (x : SsoSession). x.id) (keep test r.sessions) in
    inactive (terminate_all_active admin_id now r).0 sid later (λ z at.
      elim (Bool-cases (is_status_active z.status)) [
        | inr b ↦ b
        | inl b ↦
            let (before, others) =
              terminate_each-before admin_action admin_id now sid ids r z at b in
            let listed = contains-kept sid test r.sessions z before b in
            ground (arith, listed, others)
      ])
