-- ===== src/Updates/Planner/Reuse.antt =====
-- The check of a plan that reuses the base snapshot: the planner compares the analyzers' texts and
-- the other members, the check compares the texts of the whole analyses.
use mathlib.Core.List.{append_assoc}
use api_truth.Prelude.{ℕ, ◌≡◌, refl, sym, true, some, [], ◌∷◌, ◌++◌, arith}
use api_truth.Prelude.Text.{Str, lit, str_eq, str_eq_iff}
use api_truth.Json.{Json}
use api_truth.Orchestration.Canonical.{serialize, same_text, quote, join}
use api_truth.Updates.Snapshot.{AnalysisKey}
use api_truth.Updates.Plan.{analyzer_json, analysis_json, texts_agree}

abbrev member : Str → Str → Str
member k text = quote k ++ b':' ∷ text

-- The two members that both texts begin with.
first_member : AnalysisKey → Str
unfolding serialize
first_member k = member (lit "analyzer") (
    b'{'
    ∷ (join (
          member (lit "analyzer_id") (quote k.analyzer_id)
          ∷ member (lit "analyzer_version") (quote k.analyzer_version)
          ∷ [])
        ++ b'}' ∷ []))

second_member : AnalysisKey → Str
unfolding serialize
second_member k = member (lit "analyzer_exchange_version") (quote k.analyzer_exchange_version)

shared : AnalysisKey → Str
shared k = first_member k ++ b',' ∷ second_member k

other_members : (fingerprint config identity ir : Str) → Str
unfolding serialize
other_members fingerprint config identity ir = join (
    member (lit "config_fingerprint") (quote fingerprint)
    ∷ member (lit "config_version") (quote config)
    ∷ member (lit "identity_version") (quote identity)
    ∷ member (lit "ir_version") (quote ir)
    ∷ [])

analyzer_text :
    (k : AnalysisKey) → serialize (analyzer_json k) ≡ some (b'{' ∷ (shared k ++ b'}' ∷ []))
unfolding serialize first_member second_member shared
analyzer_text k = refl

analysis_text :
    (k : AnalysisKey)
    → serialize (analysis_json k)
      ≡ some (
          b'{'
          ∷ ((first_member k
                ++ b','
                  ∷ (second_member k
                      ++ b','
                        ∷ other_members k.config_fingerprint k.config_version k.identity_version
                            k.ir_version))
              ++ b'}' ∷ []))
unfolding serialize first_member second_member other_members
analysis_text k = refl

shared_first :
    (k : AnalysisKey) (r : Str)
    → (first_member k ++ b',' ∷ (second_member k ++ b',' ∷ r)) ≡ (shared k ++ b',' ∷ r)
unfolding shared
shared_first k r = sym (append_assoc (first_member k) (b',' ∷ second_member k) (b',' ∷ r))

snoc-inj : (c : ℕ) (s t : Str) → (s ++ c ∷ []) ≡ (t ++ c ∷ []) → s ≡ t
snoc-inj c [] [] h = refl
snoc-inj c [] (b ∷ []) h = cc
snoc-inj c [] (b ∷ d ∷ t) h = cc
snoc-inj c (a ∷ []) [] h = cc
snoc-inj c (a ∷ d ∷ s) [] h = cc
snoc-inj c (a ∷ s) (b ∷ t) h = ground (arith, snoc-inj c s t, h)

texts_agree-some :
    (a b : Json) (s t : Str)
    → serialize a ≡ some s
    → serialize b ≡ some t
    → texts_agree a b ≡ str_eq s t
unfolding same_text
texts_agree-some a b s t ea eb = ground (arith, ea, eb)

shared-eq :
    (k l : AnalysisKey)
    → texts_agree (analyzer_json k) (analyzer_json l) ≡ true
    → shared k ≡ shared l
shared-eq k l h = snoc-inj b'}' (shared k) (shared l) (
    ground (
      arith,
      h,
      texts_agree-some (analyzer_json k) (analyzer_json l) _ _ (analyzer_text k) (analyzer_text l),
      str_eq_iff (b'{' ∷ (shared k ++ b'}' ∷ [])) (b'{' ∷ (shared l ++ b'}' ∷ [])),
    ))

-- Analyses with one analyzer text and the same other members have one text.
pub analyses_agree :
    (k l : AnalysisKey)
    → texts_agree (analyzer_json k) (analyzer_json l) ≡ true
    → k.config_fingerprint ≡ l.config_fingerprint
    → k.config_version ≡ l.config_version
    → k.identity_version ≡ l.identity_version
    → k.ir_version ≡ l.ir_version
    → texts_agree (analysis_json k) (analysis_json l) ≡ true
analyses_agree k l h f c i v =
    let others : AnalysisKey → Str =
      λ m. other_members m.config_fingerprint m.config_version m.identity_version m.ir_version in
    let text : AnalysisKey → Str =
      λ m. b'{' ∷ ((first_member m ++ b',' ∷ (second_member m ++ b',' ∷ others m)) ++ b'}' ∷ []) in
    let same : text k ≡ text l =
      rw (shared_first k (others k), shared_first l (others l), shared-eq k l h, f, c, i, v) in
    rw
      (texts_agree-some (analysis_json k) (analysis_json l) (text k) (text l) (analysis_text k)
        (analysis_text l))
      ((str_eq_iff (text k) (text l)).1 same)
