-- ===== src/Auth/Verify.antt =====
-- `verifyCredential`, the operator directory and the comparison of derived keys. PBKDF2, base64 and
-- the answer of `POST /auth/login` are not this repository's code: the first two are parameters, the
-- answer is an argument.
pub mod Compare
pub mod Door
use Prim.Native.Nat.{bit_or, bit_xor}
use aapda_sync.Base.{
  ℕ, String, Bool, false, Option, none, some, List, [], ◌∷◌, length, nat_eq, lookup, insert,
  if◌then◌else◌,
}
use aapda_sync.Auth.{App}
use aapda_sync.Auth.Throttle.{lock_state, record_failure, fresh}

-- What a session is granted from: an entry of the directory, or what the API answers.
pub record Operator : Type 0 where
  pub name : String
  pub role : String
  pub district : Option String
  pub scope : Option (List String)
  pub can : Option (List String)

pub record Account : Type 0 where
  pub salt : String
  pub hash : String
  pub operator : Operator

abbrev pub account :
    (salt hash name role : String) (district : Option String) (scope : Option (List String))
    (can : List String)
    → Account
account salt hash name role district scope can = record {
  salt = salt;
  hash = hash;
  operator = record {
    name = name;
    role = role;
    district = district;
    scope = scope;
    can = some can;
  };
}

unfoldable pub operators : List (String × Account)
operators =
    (
      "ndma.control",
      account "uE0a40fbSP4uV1N/ntOvXg==" "iy5Joyr3vwa4aNPIK5G4NWnnncYLaupG2+BkIBhL5Ys="
          "NDMA National Control Room" "national_command" none none
          ("read_operational" ∷ "update_shelter_status" ∷ "report_road_status"
            ∷ "verify_citizen_report" ∷ "trigger_evacuation_plan" ∷ "acknowledge_alert"
            ∷ "read_audit" ∷ []),
    )
    ∷ (
      "dm.chamoli",
      account "vnBtnDjWPJqViW/URB3d6A==" "EZd5lwTtHqDRfaruEirA4fcIZr1AcEGd4P4zKv25Y1M="
          "District Magistrate, Chamoli" "district_command" (some "UT-CHAMOLI") none
          ("read_operational" ∷ "update_shelter_status" ∷ "report_road_status"
            ∷ "verify_citizen_report" ∷ "trigger_evacuation_plan" ∷ "acknowledge_alert" ∷ []),
    )
    ∷ (
      "so.usdma",
      account "xdu2afLHXuSPnbZGb0V6nA==" "1d2DSb1wQUr9jC0Hl+sufeE5INY8yobqIqRKCs44rO4Y="
          "State Operations, Uttarakhand SDMA" "state_ops" none none
          ("read_operational" ∷ "acknowledge_alert" ∷ "verify_citizen_report" ∷ []),
    )
    ∷ (
      "shelter.201",
      account "hRV34r8lVGRvAvSPTufnHQ==" "WzU9MOBnn+GjDAqszfXw4D+TcRSeDevZelDjudNUFIM="
          "Shelter Operator · SH-201" "shelter_operator" (some "UT-CHAMOLI") (some ("SH-201" ∷ []))
          ("read_operational" ∷ "update_shelter_status" ∷ []),
    )
    ∷ []

-- `diff |= a[i] ^ b[i]` over two arrays of one length.
unfoldable pub difference : ℕ → List ℕ → List ℕ → ℕ
difference diff (x ∷ xs) (y ∷ ys) = difference (bit_or diff (bit_xor x y)) xs ys
difference diff _ _ = diff

unfoldable pub timing_safe_equal : List ℕ → List ℕ → Bool
unfolding difference
timing_safe_equal a b = if nat_eq (length a) (length b) then nat_eq (difference 0 a b) 0 else false

-- How the API answers: `!r.ok`, a body, or a failed request.
pub data Login : Type 0 where
  refused unreachable : Login
  accepted : (operator : Operator) (token : String) → Login

pub data Verdict : Type 0 where
  granted : (operator : Operator) (token : Option String) → Verdict
  locked : (seconds : ℕ) → Verdict
  bad unreachable : Verdict

-- A refusal counts as a failure, an accepted credential clears the count; a failed request does
-- neither.
unfoldable pub settle : ℕ → String → Verdict → App → App
settle now user (granted operator token) app = record app {
  attempts = insert user fresh app.attempts;
}
settle now user bad app = record app { attempts = record_failure now user app.attempts }
settle now user unreachable app = app
settle now user (locked seconds) app = app

module _ (derive_key : String → String → List ℕ) (b64_to_bytes : String → List ℕ) where
  -- Whether the local directory accepts the credential. For an unknown name the source derives a key
  -- all the same and then refuses; only the time differs, which is no part of the model.
  unfoldable pub check_local : String → String → Option Account
  check_local user password = elim (lookup user operators) [
    | none ↦ none
    | some rec ↦
        if timing_safe_equal (derive_key password rec.salt) (b64_to_bytes rec.hash)
        then some rec
        else none
  ]

  -- What the check says of an account that is not locked: `api` is the answer of the backend, where
  -- one is configured.
  unfoldable pub reply : Option Login → String → String → Verdict
  reply (some refused) user password = bad
  reply (some unreachable) user password = unreachable
  reply (some (accepted operator token)) user password = granted operator (some token)
  reply none user password = elim (check_local user password) [
    | none ↦ bad
    | some rec ↦ granted rec.operator none
  ]

  -- `start` is the time of the call and `end` that of the answer. Other handlers may run between the
  -- two: the lock is read from the store as it was `before`, and the attempts are written to the
  -- store as it is `after`.
  unfoldable pub verify_credential :
      (start end : ℕ) (api : Option Login) (user password : String) (before after : App)
      → App × Verdict
  verify_credential start end api user password before after =
      elim (lock_state start user before.attempts) [
        | some seconds ↦ (after, locked seconds)
        | none ↦ let verdict = reply api user password in (settle end user verdict after, verdict)
      ]
