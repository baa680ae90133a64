-- ===== src/Archive/Built.antt =====
-- The members that `build_archive` puts in an archive pass the checks that `verify_archive` makes of them:
-- scripts/durable_recovery.py.
use moon_mqtt_client.Base.{
  none, str_eq_iff, some_injective, Option, String, true, ◌≡◌, refl, List, some, length,
  str_eq_refl, leb, ==_refl, arith,
}
use moon_mqtt_client.Durable.{Snapshot, max_source_bytes}
use moon_mqtt_client.Json.{Json}
use moon_mqtt_client.Json.Equal.{json_eq}
use moon_mqtt_client.Bundle.{SourceFile, Member, document, Entry}
use moon_mqtt_client.Exec.{ok, require, or_raise, ◌>>=◌, ◌>>◌}
use moon_mqtt_client.World.{Env, World}
use moon_mqtt_client.Archive.{
  Zip, max_manifest_bytes, ends_archive, new_entry, new_bundle, check_bundle, check_request,
  kind_fits, is_canonical_entry, manifest_for,
}

-- What zipfile promises of a file that it writes: the members it was given, in their order, and an end
-- record of 22 bytes with its signature and no comment.
pub record IsZip (zip : Zip) : Type 0 where
  pub entries : (es : List Entry) → (zip.pack es).entries ≡ es
  pub end_length : (es : List Entry) → length (zip.pack es).end_record ≡ 22
  pub end_canonical : (es : List Entry) → ends_archive (zip.pack es).end_record ≡ true

-- What the caller of `verify_archive` asks for, if it does, is what the archive was built with.
abbrev pub IsAsked {ℓ} : {A : Type ℓ} → Option A → Option A → Type ℓ
IsAsked none built = Unit
IsAsked (some asked) built = built ≡ some asked

kind_fits-IsAsked :
    (asked : Option String) (kind : String)
    → IsAsked asked (some kind)
    → kind_fits asked kind ≡ true
kind_fits-IsAsked none kind h = refl
kind_fits-IsAsked (some asked) kind h = (str_eq_iff kind asked).1 (some_injective h)

module _ (env : Env) (zip : Zip) where
  is_canonical_entry-new_entry :
      (name : String) (body : Member) → is_canonical_entry (new_entry env zip name body) ≡ true
  unfolding is_canonical_entry new_entry
  is_canonical_entry-new_entry name body = ground (arith, ==_refl (zip.size_of body))

  check_request-manifest_for :
      (asked request : Option Json) (snapshot : Snapshot) (kind : String) (file : SourceFile)
      (sha : String) (w : World)
      → IsAsked asked request
      → ((value : Json) → request ≡ some value → json_eq value value ≡ true)
      → check_request env zip asked (manifest_for env zip snapshot kind request file sha) w
        ≡ (ok tt, w)
  unfolding check_request require ◌>>◌ ◌>>=◌
  check_request-manifest_for none request snapshot kind file sha w h same = refl
  check_request-manifest_for (some value) none snapshot kind file sha w h same = absurd cc
  check_request-manifest_for (some value) (some built) snapshot kind file sha w h same =
      rw (some_injective h, same value h, str_eq_refl (env.sha256 (env.dumps value))) refl

  -- `check_bundle` on the members that `build_archive` puts in an archive, with a request or, as for an
  -- observation, without: asked for the kind and the request that it was built with, or for neither, it
  -- returns the manifest that was written and the contents of the database's copy, if the two members
  -- are within their limits, the manifest's hash is that of the copy and the request equals itself.
  pub check_bundle-new_bundle :
      (body : Member) (snapshot : Snapshot) (kind : String) (request : Option Json)
      (file : SourceFile) (asked_kind : Option String) (asked_request : Option Json) (w : World)
      → IsZip zip
      → IsAsked asked_kind (some kind)
      → IsAsked asked_request request
      → ((value : Json) → request ≡ some value → json_eq value value ≡ true)
      → leb (zip.size_of body) max_source_bytes ≡ true
      → leb
          (zip.size_of (
            document
              (manifest_for env zip snapshot kind request file (env.digest (zip.content_of body)))
              true))
          max_manifest_bytes
        ≡ true
      → check_bundle env zip asked_kind asked_request
          (new_bundle env zip body
            (manifest_for env zip snapshot kind request file (env.digest (zip.content_of body))))
          w
        ≡ (
          ok (
            manifest_for env zip snapshot kind request file (env.digest (zip.content_of body)),
            zip.content_of body,
          ),
          w,
        )
  unfolding check_bundle new_bundle new_entry require or_raise ◌>>◌ ◌>>=◌
  check_bundle-new_bundle body snapshot kind request file asked_kind asked_request w z is_kind
        is_request same small short =
      let manifest =
        manifest_for env zip snapshot kind request file (env.digest (zip.content_of body)) in
      rw
        (
          z.end_length _,
          z.end_canonical _,
          z.entries _,
          is_canonical_entry-new_entry "source.sqlite3" body,
          ==_refl (zip.size_of (document manifest true)),
        )
        (rw (small, short)
          (rw
            (
              kind_fits-IsAsked asked_kind kind is_kind,
              check_request-manifest_for asked_request request snapshot kind file
                  (env.digest (zip.content_of body)) w is_request same,
              str_eq_refl (env.digest (zip.content_of body)),
            )
            refl))
