-- ===== src/License.antt =====
-- Licences: pkg/license/license.go, and `checkLicense` and the guard of `connectSQLDB`
-- (cmd/edg/connect.go). Base64, JSON, Ed25519, the environment and the clock are the fields of
-- `Outside`; a byte is a number, and a time is in nanoseconds since the start of the year 1, which
-- is where `time.Time` counts its seconds from.
pub mod Gate
use edg.Prelude.{
  ℕ, ◌-◌, String, List, [], ◌∷◌, Bool, true, false, str_eq, ◌||◌, not, if◌then◌else◌, leb, length,
  take, drop, Result, ok, err, ◌>>=◌, ◌>>◌, refuse,
}
use edg.Prelude.Int.{ℤ, pos, ◌+ℤ◌, ◌*ℤ◌, ltb_ℤ, wrap_64}

-- `licenseWire`
pub record Wire : Type 0 where
  pub id : String
  pub email : String
  pub drivers : List String
  -- Unix seconds
  pub expires : ℤ
  pub issued : ℤ

-- `License`
pub record License : Type 0 where
  pub id : String
  pub email : String
  pub drivers : List String
  pub expires_at : ℤ
  pub issued_at : ℤ

pub record Outside (E : Type 0) : Type 0 where
  -- `base64.RawURLEncoding` and `base64.StdEncoding` after `strings.TrimSpace`
  pub decode_url : String → Result E (List ℕ)
  pub decode_key : String → Result E (List ℕ)
  pub ed_verify : List ℕ → List ℕ → List ℕ → Bool
  pub unmarshal : List ℕ → Result E Wire
  pub now : ℤ
  pub flag_license : String
  pub env_license : String
  pub public_key : String

pub data LicenseError (E : Type 0) : Type 0 where
  bad_encoding bad_payload bad_key : E → LicenseError E
  too_short : LicenseError E
  bad_signature : LicenseError E
  missing : LicenseError E
  expired : LicenseError E
  not_included : LicenseError E

abbrev pub or_error :
    {E : Type 0} {A : Type 0} → (E → LicenseError E) → Result E A → Result (LicenseError E) A
or_error f (ok a) = ok a
or_error f (err e) = err (f e)

abbrev pub sig_size : ℕ
sig_size = 64

-- The Unix time 0, in seconds since the start of the year 1
abbrev pub unix_to_internal : ℤ
unix_to_internal = pos 62_135_596_800

-- `time.Unix(sec, 0)`: the sum is an `int64` that wraps around.
pub unix_time : ℤ → ℤ
unix_time sec = wrap_64 (sec +ℤ unix_to_internal) *ℤ pos 1_000_000_000

pub from_wire : Wire → License
unfolding unix_time
from_wire w = record {
  id = w.id;
  email = w.email;
  drivers = w.drivers;
  expires_at = unix_time w.expires;
  issued_at = unix_time w.issued;
}

pub contains : String → List String → Bool
contains s [] = false
contains s (t ∷ ts) = str_eq s t || contains s ts

abbrev pub enterprise_drivers : List String
enterprise_drivers = "oracle" ∷ "mssql" ∷ "dsql" ∷ "spanner" ∷ []

pub is_enterprise : String → Bool
unfolding contains
is_enterprise driver = contains driver enterprise_drivers

pub has_driver : License → String → Bool
unfolding contains
has_driver l name = contains name l.drivers

pub is_expired : ℤ → License → Bool
is_expired now l = ltb_ℤ l.expires_at now

module _ {E : Type 0} (o : Outside E) where
  -- `Verify` after the decoding.
  pub verify_raw : List ℕ → List ℕ → Result (LicenseError E) License
  unfolding from_wire
  verify_raw key raw = do
    refuse (leb (length raw) sig_size) too_short
    let payload = take (length raw - sig_size) raw
    let sig = drop (length raw - sig_size) raw
    refuse (not (o.ed_verify key payload sig)) bad_signature
    w ← or_error bad_payload (o.unmarshal payload)
    ok (from_wire w)

  -- `Verify`
  pub verify : List ℕ → String → Result (LicenseError E) License
  unfolding verify_raw
  verify key license = do raw ← or_error bad_encoding (o.decode_url license); verify_raw key raw

  -- The flag, or the environment variable without one.
  pub license_text : String
  license_text = if str_eq o.flag_license "" then o.env_license else o.flag_license

  -- `checkLicense`
  pub check_license : String → Result (LicenseError E) (Unit {0})
  unfolding license_text verify is_expired has_driver
  check_license driver = do
    refuse (str_eq license_text "") missing
    key ← or_error bad_key (o.decode_key o.public_key)
    lic ← verify key license_text
    refuse (is_expired o.now lic) expired
    refuse (not (has_driver lic driver)) not_included

  -- The guard of `connectSQLDB`.
  pub may_connect : String → Result (LicenseError E) (Unit {0})
  unfolding is_enterprise check_license
  may_connect driver = if is_enterprise driver then check_license driver else ok tt
