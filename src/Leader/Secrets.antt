-- ===== src/Leader/Secrets.antt =====
-- What the leader leaves of a policy's secret.
use istio_oidc.Common.{
  String, true, ◌∷◌, Option, some, ok, or_else, eqb, if◌then◌else◌, ◌==◌, ◌≡◌, refl, arith, eq_refl,
  Bool-cases, inl, inr, ap, ◌∙◌,
}
use istio_oidc.Common.Map
use istio_oidc.Common.Map.{GoMap, get-put}
use istio_oidc.Api.{ApiAccessPolicy}
use istio_oidc.OpenId.Chars.{text_length}
use istio_oidc.Leader.{
  LeaderCluster, Leader, Write, update_secret, write, with_token_key, renew_secret, event,
  report_empty,
}

module _ (k : LeaderCluster) where
  -- The data after the renewal of a key: what there was, but for a key that had not 64 bytes.
  abbrev pub renewed : String → GoMap String → String → String → Option String
  renewed key data' fresh other =
      if key == other
      then if eqb (text_length (or_else (Map.get key data') "")) 64
        then Map.get other data'
        else some fresh
      else Map.get other data'

  -- What a renewal leaves, at the key itself and at any other one.
  abbrev pub IsRenewed : String → GoMap String → String → String → GoMap String → Type 0
  IsRenewed key data' fresh other out =
      (text_length (or_else (Map.get key out) "") ≡ 64)
      × (Map.get other out ≡ renewed key data' fresh other)

  with_token_key-IsRenewed :
      (key fresh other : String) (data' : GoMap String) (l : Leader)
      → k.random_key ≡ some fresh
      → text_length fresh ≡ 64
      → (out : GoMap String) × (m : Leader) × (with_token_key k key (some data') l
          ≡ (m, ok (some out)))
        × (m.writes ≡ l.writes)
        × IsRenewed key data' fresh other out
  unfolding with_token_key
  with_token_key-IsRenewed key fresh other data' l e long =
      elim (Bool-cases (eqb (text_length (or_else (Map.get key data') "")) 64)) [
        | inl good ↦
            (data', l, ground (arith, good), refl, (ground (arith, good), ground (arith, good)))
        | inr bad ↦ (
          Map.put key fresh data',
          event "GeneratedTokenSecret" (event "GeneratedTokenSecret" l),
          ground (arith, bad, e),
          refl,
          (
            ground (arith, get-put key key fresh data', eq_refl key, long),
            ground (arith, bad, get-put key other fresh data'),
          ),
        )
      ]

  report_empty-writes :
      (key reason : String) (data' : Option (GoMap String)) (l : Leader)
      → (report_empty k key reason data' l).writes ≡ l.writes
  report_empty-writes key reason data' l = ground arith

  -- Where the cluster accepts writes and there are random bytes, the leader writes the secret of a
  -- policy back with a token key of 64 bytes: the one that was there, if it had 64 bytes, and a fresh
  -- one otherwise. All other entries stay.
  pub renew_secret-IsRenewed :
      (pol : ApiAccessPolicy) (data' : GoMap String) (fresh other : String) (l : Leader)
      → k.random_key ≡ some fresh
      → text_length fresh ≡ 64
      → ((w : Write) → k.accepts w ≡ true)
      → (out : GoMap String) × (m : Leader) × (renew_secret k pol (some data') l ≡ (m, ok tt))
        × (m.writes ≡ update_secret pol.spec.oidc.credentials_secret.name (some out) ∷ l.writes)
        × IsRenewed pol.spec.oidc.credentials_secret.token_secret_key data' fresh other out
  unfolding renew_secret write
  renew_secret-IsRenewed pol data' fresh other l e long accepted =
      let ref = pol.spec.oidc.credentials_secret in
      let reported =
        report_empty k ref.client_secret_key "MissingClientSecret" (some data')
          (report_empty k ref.client_id_key "MissingClientID" (some data') l) in
      let (out, m, made, kept, is_renewed) =
        with_token_key-IsRenewed ref.token_secret_key fresh other data' reported e long in
      (
        out,
        record m { writes = update_secret ref.name (some out) ∷ m.writes },
        rw (made, accepted (update_secret ref.name (some out))) refl,
        ap (λ ws. update_secret ref.name (some out) ∷ ws)
            (kept
              ∙ report_empty-writes ref.client_secret_key "MissingClientSecret" (some data')
                  (report_empty k ref.client_id_key "MissingClientID" (some data') l)
              ∙ report_empty-writes ref.client_id_key "MissingClientID" (some data') l),
        is_renewed,
      )
