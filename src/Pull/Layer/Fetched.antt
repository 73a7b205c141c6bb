-- ===== src/Pull/Layer/Fetched.antt =====
-- What is known of a layer that was unpacked.
use coco_guest_components.Common.{
  ℕ, not, ◌&&◌, ltb, ◌==◌, subst, ◌≡◌, inl, inr, Option, List, ok, map_err, ensure, ensure-eq-ok,
  Bool-cases, Result-cases, arith,
}
use coco_guest_components.Text.{Text, ◌=ₜ◌}
use coco_guest_components.Text.Laws.{text_eq_iff}
use coco_guest_components.External.Oci.{OciClient}
use coco_guest_components.External.Crypto.{Crypto}
use coco_guest_components.External.Encoding.{Encoding}
use coco_guest_components.External.Host.{OciDescriptor, Source, Host}
use coco_guest_components.Ocicrypt.Cipher.{IoEvent}
use coco_guest_components.Ocicrypt.KeyWrap.{DecryptConfig, KeyWrappers}
use coco_guest_components.Decrypt.{
  Decryptor, from_media_type, get_decrypt_key, async_get_plaintext_layer, read_layer,
}
use coco_guest_components.Steps.{lift, after_elim}
use coco_guest_components.Pull.Stream.{
  Streamed, Unpacks, decompress_unpack_layer, decompress_unpack_ok,
}
use coco_guest_components.Pull.Layer.{
  LayerMeta, Site, unpack_layer, unpack_encrypted, unpack_plain, unpack_either, fetch_layer,
  decrypt_error, size_mismatch, unequal_digest, source_of, source_of_plaintext,
}

module _ (enc : Encoding) (crypto : Crypto) {oci : OciClient} (host : Host oci)
    (wrappers : KeyWrappers) (decrypt_config : Option DecryptConfig)
    (random_nonce : Option (List ℕ)) where
  open host use {State, pull_blob_stream, remove_dir_all, bytes_read, oci_layer, oci_layer_gzip}

  abbrev S : Type 0
  S = Site host

  -- The layer was unpacked into its store path, and the digest of what was unpacked is the
  -- layer's diff id.
  pub record Verified (layer : OciDescriptor) (diff_id : Text) (meta : LayerMeta) : Type 0 where
    pub compressed : meta.compressed_digest ≡ layer.digest
    pub uncompressed : meta.uncompressed_digest ≡ diff_id
    pub input : Source
    pub media_type : Text
    pub after_unpack : State
    pub streamed : Streamed host input media_type meta.store_path diff_id after_unpack

  unpack_layer_ok :
      (input : Source) (diff_id media_type destination digest : Text) (s s' : State)
      → unpack_layer enc crypto host wrappers decrypt_config random_nonce input diff_id media_type
          destination s
        ≡ (s', ok digest)
      → Unpacks host destination digest
  unpack_layer_ok input diff_id media_type destination digest s s' h =
      elim (Result-cases (decompress_unpack_layer host s input diff_id media_type destination).1) [
        | inr (e, bad) ↦ ground arith
        | inl (d, good) ↦ record {
          input = input;
          media_type = media_type;
          after_unpack = s';
          streamed =
              decompress_unpack_ok host s s' input diff_id media_type destination digest
                (ground arith);
        }
      ]

  module _ (layer : OciDescriptor) (diff_id : Text) (events : List IoEvent)
      (destination : Text) where
    encrypted_ok :
        (d : Decryptor) (digest : Text) (s s' : State)
        → unpack_encrypted enc crypto host wrappers decrypt_config random_nonce d layer diff_id
            events destination s
          ≡ (s', ok digest)
        → Unpacks host destination digest
    unfolding unpack_encrypted
    encrypted_ok d digest s s' h =
        after_elim
          (lift
            (map_err decrypt_error
              (get_decrypt_key enc crypto wrappers d layer.annotations decrypt_config))
            s)
          _ h
          λ s1 key e1 h1.
            after_elim
              (lift
                (map_err decrypt_error
                  (async_get_plaintext_layer enc crypto events layer.annotations key random_nonce))
                s1)
              _ h1
              λ s2 plain e2 h2.
                unpack_layer_ok (source_of_plaintext (read_layer enc crypto events plain)) diff_id
                  d.media_type destination digest s2 s' h2

    plain_ok :
        (digest : Text) (s s' : State)
        → unpack_plain enc crypto host wrappers decrypt_config random_nonce layer diff_id events
            destination s
          ≡ (s', ok digest)
        → Unpacks host destination digest
    unfolding unpack_plain
    plain_ok digest s s' h =
        after_elim
          (unpack_layer enc crypto host wrappers decrypt_config random_nonce (source_of events)
            diff_id layer.media_type destination s)
          _ h
          λ s1 digest' e1 h1.
            after_elim
              (lift
                (ensure
                  (not (
                    ltb 0 layer.size
                    && not (bytes_read layer.media_type (source_of events) == layer.size)))
                  size_mismatch)
                s1)
              _ h1
              λ s2 _ e2 h2.
                let same : digest' ≡ digest = cc in
                rw (← same) (
                  unpack_layer_ok (source_of events) diff_id layer.media_type destination digest' s
                    s1 e1)

    unpack_either_ok :
        (d : Decryptor) (digest : Text) (s s' : State)
        → unpack_either enc crypto host wrappers decrypt_config random_nonce d layer diff_id events
            destination s
          ≡ (s', ok digest)
        → Unpacks host destination digest
    unfolding unpack_either
    unpack_either_ok d digest s s' h = elim (Bool-cases d.encrypted) [
      | inl secret ↦ encrypted_ok d digest s s' (ground arith)
      | inr plain ↦ plain_ok digest s s' (ground arith)
    ]

    pub fetch_layer_ok :
        (meta : LayerMeta) (s s' : State)
        → fetch_layer enc crypto host wrappers decrypt_config random_nonce layer diff_id events
            destination s
          ≡ (s', ok meta)
        → Verified layer diff_id meta
    unfolding fetch_layer
    fetch_layer_ok meta s s' h =
        after_elim
          (unpack_either enc crypto host wrappers decrypt_config random_nonce decryptor layer
            diff_id events destination s)
          _ h
          λ s1 digest e1 h1.
            after_elim (lift (ensure (digest =ₜ diff_id) unequal_digest) s1) _ h1 λ s2 _ e2 h2.
              let facts = unpack_either_ok decryptor digest s s1 e1 in
              let stored : destination ≡ meta.store_path = cc in
              let same : digest ≡ diff_id =
                (text_eq_iff digest diff_id).0
                  (ensure-eq-ok (digest =ₜ diff_id) unequal_digest (cc)) in
              record {
                compressed = cc;
                uncompressed = cc;
                input = facts.input;
                media_type = facts.media_type;
                after_unpack = facts.after_unpack;
                streamed =
                    subst
                      (λ p. Streamed host facts.input facts.media_type p diff_id facts.after_unpack)
                      stored
                      (subst
                        (λ d.
                          Streamed host facts.input facts.media_type destination d
                            facts.after_unpack)
                        same facts.streamed);
              }
      where
        decryptor : Decryptor
        decryptor = from_media_type oci_layer oci_layer_gzip layer.media_type
