-- ===== src/SelfUpdate/Sums/Laws.antt =====
-- What a verified download is.
use xray_vless_ws_go.Base.{
  ℕ, ◌≡◌, ◌≢◌, refl, ap, sym, Bool, arith, Bytes, bytes_eq_sound, Result, ok, err,
}
use xray_vless_ws_go.SelfUpdate.Files.{Dir}
use xray_vless_ws_go.SelfUpdate.Sums.{
  Reply, UpdateError, fetch_expected_hash, download_file, check_hash, after_download, verify_with,
  download_and_verify,
}

-- What a step of the download may do: it writes the temporary inode's content and nothing else.
pub record OnlyContent (t : ℕ) (d d' : Dir) : Type 0 where
  pub names : (d'.exec ≡ d.exec) × (d'.prev ≡ d.prev) × (d'.tmp ≡ d.tmp)
  pub others : (i : ℕ) → i ≢ t → d'.inode i ≡ d.inode i

download_file-OnlyContent :
    (asset : Reply) (opens : Bool) (d : Dir) (t : ℕ)
    → OnlyContent t d (download_file asset opens d t).0
unfolding download_file
download_file-OnlyContent asset opens d t = record {
  names = ground arith;
  others = λ i h. ground arith;
}

module _ (sha256_hex : Bytes → Bytes) where
  -- The download that the verification accepted, or refused: the file's names stay, and every inode
  -- but the temporary one keeps its content.
  after_download-OnlyContent :
      (want : Bytes) (reads : Bool) (t : ℕ) (d : Dir) (o : Dir × Result UpdateError (Unit {0}))
      → OnlyContent t d o.0
      → OnlyContent t d (after_download sha256_hex want reads t o).0
  unfolding after_download
  after_download-OnlyContent want reads t d (d', ok _) h = h
  after_download-OnlyContent want reads t d (d', err e) h = h

  verify_with-OnlyContent :
      (want : Result UpdateError Bytes) (asset : Reply) (opens reads : Bool) (d : Dir) (t : ℕ)
      → OnlyContent t d (verify_with sha256_hex want asset opens reads d t).0
  unfolding verify_with
  verify_with-OnlyContent (err e) asset opens reads d t = record {
    names = (refl, refl, refl);
    others = λ i h. refl;
  }
  verify_with-OnlyContent (ok want) asset opens reads d t =
      after_download-OnlyContent want reads t d (download_file asset opens d t)
        (download_file-OnlyContent asset opens d t)

  pub download_and_verify-OnlyContent :
      (sums asset : Reply) (name : Bytes) (opens reads : Bool) (d : Dir) (t : ℕ)
      → OnlyContent t d (download_and_verify sha256_hex sums asset name opens reads d t).0
  unfolding download_and_verify
  download_and_verify-OnlyContent sums asset name opens reads d t =
      verify_with-OnlyContent (fetch_expected_hash sums name) asset opens reads d t

  check_hash-ok :
      (want : Bytes) (reads : Bool) (d : Dir) (t : ℕ)
      → check_hash sha256_hex want reads d t ≡ ok tt
      → sha256_hex (d.inode t).content ≡ want
  unfolding check_hash
  check_hash-ok want reads d t h =
      ground (arith, bytes_eq_sound (sha256_hex (d.inode t).content) want)

  after_download-ok :
      (want : Bytes) (reads : Bool) (t : ℕ) (o : Dir × Result UpdateError (Unit {0}))
      → (after_download sha256_hex want reads t o).1 ≡ ok tt
      → sha256_hex ((after_download sha256_hex want reads t o).0.inode t).content ≡ want
  unfolding after_download
  after_download-ok want reads t (d, ok _) h = check_hash-ok want reads d t h
  after_download-ok want reads t (d, err e) h = cc

  verify_with-ok :
      (r : Result UpdateError Bytes) (asset : Reply) (opens reads : Bool) (d : Dir) (t : ℕ)
      → (verify_with sha256_hex r asset opens reads d t).1 ≡ ok tt
      → r ≡ ok (sha256_hex ((verify_with sha256_hex r asset opens reads d t).0.inode t).content)
  unfolding verify_with
  verify_with-ok (err e) asset opens reads d t h = cc
  verify_with-ok (ok want) asset opens reads d t h =
      ap ok (sym (after_download-ok want reads t (download_file asset opens d t) h))

  -- A download that is accepted has the digest that SHA256SUMS lists for the asset.
  pub download_and_verify-ok :
      (sums asset : Reply) (name : Bytes) (opens reads : Bool) (d : Dir) (t : ℕ)
      → (download_and_verify sha256_hex sums asset name opens reads d t).1 ≡ ok tt
      → let d' = (download_and_verify sha256_hex sums asset name opens reads d t).0 in
        fetch_expected_hash sums name ≡ ok (sha256_hex (d'.inode t).content)
  unfolding download_and_verify
  download_and_verify-ok sums asset name opens reads d t h =
      verify_with-ok (fetch_expected_hash sums name) asset opens reads d t h
