-- ===== src/Store/Checks.antt =====
-- The validators of packages/engine/src/durable-store.ts on values that already have their types: the
-- texts that its regular expressions accept, safe integers, timestamps, leases and mutations.
use Prim.Native.Char.{code}
use anastom.Prelude.{
  ℕ, zero, suc, ◌+◌, String, Bool, true, false, not, ◌&&◌, ◌||◌, List, [], ◌∷◌, Option, none, some,
  guard, length, any, all, leb, ◌==◌, number_equality, text_equality,
}
use anastom.Run.Event.{RunEvent}
use anastom.Store.Types.{
  AcquireReleasedRun, ControlSubmission, FencedRunMutation, LocalProcessIdentity, RunLease,
  RunLeaseToken, RunSnapshot, Stored, type_error, range_error, Host,
}

-- The code points of a text.
unfoldable pub codes : String → List ℕ
codes String.[] = []
codes (String.◌∷◌ c t) = code c ∷ codes t

abbrev between : ℕ → ℕ → ℕ → Bool
between lo hi c = leb lo c && leb c hi

abbrev is_digit : ℕ → Bool
is_digit = between b'0' b'9'

-- `[a-zA-Z0-9]`, `[a-zA-Z0-9._-]`, `[a-f0-9]` and, without regard to case, `[0-9a-f]`.
abbrev is_alphanumeric : ℕ → Bool
is_alphanumeric c = between b'a' b'z' c || between b'A' b'Z' c || is_digit c

abbrev is_identifier_code : ℕ → Bool
is_identifier_code c = is_alphanumeric c || c == b'.' || c == b'_' || c == b'-'

abbrev is_lower_hex : ℕ → Bool
is_lower_hex c = between b'a' b'f' c || is_digit c

abbrev is_hex : ℕ → Bool
is_hex c = is_lower_hex c || between b'A' b'F' c

-- `/^[a-zA-Z0-9][a-zA-Z0-9._-]{0,127}$/`.
unfoldable pub is_identifier_codes : List ℕ → Bool
is_identifier_codes [] = false
is_identifier_codes (c ∷ cs) = is_alphanumeric c && all is_identifier_code cs && leb (length cs) 127

unfoldable pub is_identifier : String → Bool
unfolding codes is_identifier_codes
is_identifier t = is_identifier_codes (codes t)

-- One test for each character of a text of fixed length.
unfoldable pub matches_each : List (ℕ → Bool) → List ℕ → Bool
matches_each [] [] = true
matches_each [] (c ∷ cs) = false
matches_each (p ∷ ps) [] = false
matches_each (p ∷ ps) (c ∷ cs) = p c && matches_each ps cs

unfoldable pub repeated : ℕ → (ℕ → Bool) → List (ℕ → Bool) → List (ℕ → Bool)
repeated zero p rest = rest
repeated (suc n) p rest = p ∷ repeated n p rest

abbrev is_variant : ℕ → Bool
is_variant c = c == b'8' || c == b'9' || c == b'a' || c == b'b' || c == b'A' || c == b'B'

-- `/^[0-9a-f]{8}-[0-9a-f]{4}-4[0-9a-f]{3}-[89ab][0-9a-f]{3}-[0-9a-f]{12}$/i`.
unfoldable pub is_uuid : String → Bool
unfolding codes matches_each repeated
is_uuid t =
    let dash : ℕ → Bool = λ c. c == b'-' in
    matches_each
      (repeated 8 is_hex (
        dash
        ∷ repeated 4 is_hex (
            dash
            ∷ (λ c. c == b'4')
            ∷ repeated 3 is_hex
                (dash ∷ is_variant ∷ repeated 3 is_hex (dash ∷ repeated 12 is_hex [])))))
      (codes t)

-- `/^sha256:[a-f0-9]{64}$/`.
unfoldable pub is_digest : String → Bool
unfolding codes matches_each repeated
is_digest t =
    matches_each
      ((λ c. c == b's')
        ∷ (λ c. c == b'h')
        ∷ (λ c. c == b'a')
        ∷ (λ c. c == b'2')
        ∷ (λ c. c == b'5')
        ∷ (λ c. c == b'6')
        ∷ (λ c. c == b':')
        ∷ repeated 64 is_lower_hex [])
      (codes t)

-- `Number.isSafeInteger` of a natural number.
abbrev pub max_safe_integer : ℕ
max_safe_integer = 9_007_199_254_740_991

unfoldable pub is_safe : ℕ → Bool
is_safe n = leb n max_safe_integer

unfoldable pub is_timestamp : ℕ → Bool
is_timestamp n = is_safe n && leb 1 n

unfoldable pub is_local_process_identity : Host → LocalProcessIdentity → Bool
unfolding codes is_digest is_safe
is_local_process_identity host i =
    i.version == "anastom.dev/local-process/v1alpha1"
    && is_digest i.host_identity_digest
    && is_digest i.boot_identity_digest
    && is_safe i.pid
    && leb 1 i.pid
    && not (i.start_token == "")
    && leb (host.byte_length i.start_token) 256
    && not (any (λ c. c == 0) (codes i.start_token))

unfoldable pub is_run_lease_token : RunLeaseToken → Bool
unfolding is_identifier is_uuid is_safe
is_run_lease_token t =
    is_identifier t.run_id && is_uuid t.owner_id && is_safe t.generation && leb 1 t.generation

unfoldable pub is_run_lease : Host → RunLease → Bool
unfolding is_run_lease_token is_local_process_identity is_timestamp
is_run_lease host l =
    is_run_lease_token
      (record { run_id = l.run_id; owner_id = l.owner_id; generation = l.generation })
    && is_local_process_identity host l.owner
    && is_timestamp l.acquired_at_ms
    && is_timestamp l.renewed_at_ms
    && is_timestamp l.expires_at_ms
    && leb l.acquired_at_ms l.renewed_at_ms
    && leb l.renewed_at_ms l.expires_at_ms

-- The loop of `validateMutation`: events continue the run from the expected sequence.
unfoldable pub continues : String → ℕ → List RunEvent → Bool
unfolding is_safe
continues run_id k [] = true
continues run_id k (e ∷ es) =
    is_safe (k + 1) && e.run_id == run_id && e.sequence == k + 1 && continues run_id (k + 1) es

abbrev is_optional_identifier : Option String → Bool
is_optional_identifier none = true
is_optional_identifier (some t) = is_identifier t

abbrev pub is_nonempty_batch : List RunEvent → Bool
is_nonempty_batch [] = false
is_nonempty_batch (e ∷ es) = true

unfoldable pub validate_mutation : FencedRunMutation → Stored (Unit {0})
validate_mutation i =
    guard
      (is_run_lease_token i.lease
        && is_identifier i.operation_id
        && is_safe i.expected_sequence
        && is_nonempty_batch i.events
        && continues i.lease.run_id i.expected_sequence i.events
        && is_optional_identifier i.handles_control_operation_id)
      type_error

unfoldable pub validate_acquisition : Host → AcquireReleasedRun → Stored (Unit {0})
validate_acquisition host i =
    guard (is_identifier i.run_id && is_uuid i.owner_id && is_local_process_identity host i.owner)
      type_error

unfoldable pub validate_control_submission : ControlSubmission → Stored (Unit {0})
validate_control_submission i =
    guard (is_identifier i.run_id && is_identifier i.operation_id) type_error

unfoldable pub assert_control_limit : ℕ → Stored (Unit {0})
unfolding is_safe
assert_control_limit limit = guard (is_safe limit && leb 1 limit && leb limit 100) range_error

-- `isDeepStrictEqual` on the records that the store compares.
unfoldable pub same_identity : LocalProcessIdentity → LocalProcessIdentity → Bool
same_identity a b =
    a.version == b.version
    && a.host_identity_digest == b.host_identity_digest
    && a.boot_identity_digest == b.boot_identity_digest
    && a.pid == b.pid
    && a.start_token == b.start_token

abbrev same_flag : Bool → Bool → Bool
same_flag true b = b
same_flag false b = not b

unfoldable pub same_lease : RunLease → RunLease → Bool
unfolding same_identity
same_lease a b =
    a.run_id == b.run_id
    && a.owner_id == b.owner_id
    && same_identity a.owner b.owner
    && a.generation == b.generation
    && a.acquired_at_ms == b.acquired_at_ms
    && a.renewed_at_ms == b.renewed_at_ms
    && a.expires_at_ms == b.expires_at_ms
    && same_flag a.released b.released

unfoldable pub same_snapshot : RunSnapshot → RunSnapshot → Bool
same_snapshot a b =
    a.version == b.version
    && a.reducer_version == b.reducer_version
    && a.run_id == b.run_id
    && a.definition_digest == b.definition_digest
    && a.sequence == b.sequence
    && a.state_json == b.state_json
    && a.state_digest == b.state_digest
    && a.event_prefix_digest == b.event_prefix_digest
