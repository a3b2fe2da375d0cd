-- ===== src/License/Gate.antt =====
-- The proofs on the licence check before a connection (cmd/edg/connect.go).
use mathlib.Core.Path.{Path}
use edg.Prelude.{ℕ, ◌<◌, String, List, ◌++◌, true, length, ok, ◌≡◌, ◌≢◌}
use edg.Prelude.Int.{◌≤ℤ◌}
use edg.License.{Wire, License, Outside, from_wire, has_driver, license_text}

module _ {E : Type 0} (o : Outside E) where
  -- A signed licence: what its text decodes to is a payload that is not empty and 64 bytes that sign it
  -- with the key.
  pub record IsSigned (key : List ℕ) (text : String) (lic : License) : Type 0 where
    pub payload : List ℕ
    pub sig : List ℕ
    pub wire : Wire
    pub decodes : o.decode_url text ≡ ok (payload ++ sig)
    pub full : length sig ≡ 64
    pub filled : 0 < length payload
    pub signed : o.ed_verify key payload sig ≡ true
    pub parses : o.unmarshal payload ≡ ok wire
    pub same : lic ≡ from_wire wire

  -- Only an enterprise driver needs a licence: a signed one whose expiry, as `time.Unix`
  -- computes it, has not passed, and that names the driver.
  pub record IsLicensed (driver : String) : Type 0 where
    pub key : List ℕ
    pub license : License
    pub present : license_text o ≢ ""
    pub key_decodes : o.decode_key o.public_key ≡ ok key
    pub signed : IsSigned key (license_text o) license
    pub current : o.now ≤ℤ license.expires_at
    pub included : has_driver license driver ≡ true
