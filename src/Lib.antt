-- ===== src/Lib.antt =====
-- The guest components of confidential containers: what decides whether a container image may run
-- inside a confidential virtual machine, what decrypts its layers, and what records the events of the
-- machine for a remote verifier.
--
-- The parts, and how they interact. An image is pulled by its reference. `image-rs` asks a policy
-- whether the image may be used (`image-rs/src/signature`): the policy names requirements by the
-- reference's scope, and each requirement accepts, rejects, or asks for a signature by a key that is
-- trusted, of the scheme `simple signing` (an OpenPGP message found in a sigstore) or `cosign`.
-- `ocicrypt-rs` decrypts the layers: a layer is read through a cipher that authenticates it, under a
-- key that is wrapped into the layer's annotations by key wrappers. `image-rs` pulls the layers, unpacks
-- them under the check of their digests, and keeps a record of images and layers. The key of a layer is
-- wrapped by the key provider (`attestation-agent/coco_keyprovider`) and unwrapped by the confidential
-- data hub, which also unseals secrets; the key that this takes comes from a key broker, whose client
-- (`attestation-agent/kbs_protocol`) attests the machine first. The attestation agent keeps a log
-- of events, of which each is also extended into a measurement register of the hardware, so that a
-- verifier can replay the log against the register.
--
-- The modules.
--   Common            results, options, lists, numbers and their lemmas
--   Text              `str` as bytes, and the methods of the standard library that are called
--   External          the crates that are called, each a record of operations with the laws that
--                     their documentation states; Concrete has functions at which the laws hold
--   Signature         image-rs/src/signature. Image and Image.Digest: image/mod.rs and
--                     image/digest.rs (`Digest::try_from` is `parse`). RefMatch: policy/ref_match.rs.
--                     Policy: policy/mod.rs and policy_requirement.rs. Payload:
--                     payload/simple_signing.rs. Verify, Sigstore and Simple: policy/simple. Cosign:
--                     policy/cosign/mod.rs. Validator: mod.rs. Env: everything that a check reads.
--   Ocicrypt          ocicrypt-rs/src. Options and Cipher: blockcipher/mod.rs and aes_ctr.rs; a reader
--                     is the list of what its calls of `read` give, and `read` returns the object
--                     afterwards. KeyWrap: keywrap/mod.rs and the registry of lib.rs. Wrap and
--                     Encryption: encryption.rs, the annotations and then `finalize_annotations`,
--                     `encrypt_layer` and `decrypt_layer`.
--                     Config and Config.Provider: the builders of config.rs. Helpers: helpers.rs.
--   EventLog          attestation-agent/attestation-agent/src/eventlog. Entry and Log: mod.rs
--                     (`EventLog::new` is `new`), and `extend_runtime_measurement` of ../lib.rs, which
--                     is `extend_measurement`. Replay: event.rs. Algorithm:
--                     attestation-agent/deps/crypto/src/algorithms.rs. The state is the file and the
--                     platform; a write that fails may have written a part.
--   ResourceUri       attestation-agent/deps/resource_uri/src/lib.rs (`TryFrom` is `try_from` and
--                     `try_from_url`)
--   Auth              image-rs/src/auth (auth_config.rs)
--   Decrypt           image-rs/src/decrypt.rs, which calls ocicrypt-rs
--   LayerStore        image-rs/src/layer_store.rs; a path is its name below the data directory
--   Steps             code that changes a state and may fail after it has
--   Pull              image-rs/src. Stream: decoder/mod.rs, stream.rs and digest.rs. Layer: one layer of
--                     pull.rs, from the registry to its directory. Layers: `async_pull_layers`, over a
--                     list of completions in any order. Meta and Image: image.rs, where `pull_image` is
--                     `ImageClient::pull_image`; Gate, Trust, Pulls and Reached are about its record, and
--                     Unique about the layers that `create_image_meta` keeps.
--   Kbs               attestation-agent/kbs_protocol/src. Keypair: keypair.rs. Token:
--                     token_provider/mod.rs. ClientState: client/mod.rs. Client: client/rcar_client.rs,
--                     whose `rcar_handshake` is cut into the parts that follow each other. TokenClient:
--                     client/token_client.rs. The outside world is a state that each call changes.
--   Symmetric         attestation-agent/deps/crypto/src/symmetric.rs
--   Hub               confidential-data-hub. Secret: hub/src/secret. Packet: hub/src/image. Credentials:
--                     hub/src/auth/kbs.rs. Kms: kms/src/plugins/mod.rs.
--   KeyProvider       attestation-agent/coco_keyprovider/src: enc_mods (crypto.rs is Wrap), and
--                     grpc/mod.rs, which is Service
--
-- Bounds and fuel. The loops of `get_image_namespaces` and of `auth_keys_for_key` run on fuel of the
-- length of the name, and each round makes it shorter. `read_to_end` runs on fuel of one more than the
-- number of chunks, of which each call takes one. `decimal` prints at most so many digits as its fuel: 20
-- for a layer's index and 5 for a port. The loops with a number of attempts count those that are left: 3
-- for a layer, for an attestation and for a resource, 5 for a handshake; running out of them is the
-- error that the code gives. Everything else is structural. The index of a layer wraps at 2 ^ 64; no
-- other integer of the modelled code can overflow.
--
-- Errors are values of one type for each component; their texts are not kept. Randomness, clocks,
-- files and the platform are arguments. One signature check sees one state of the outside world.
--
-- Not modelled: networks, mounts, tar archives, gRPC and ttRPC services, attesters, the clients of key
-- management services, and serialisation, which is a parameter where its result matters. Of image-rs:
-- nydus, shared root file systems, the reading of the record at the start, and whiteouts; downloads of
-- layers are taken one after the other, in any order, since they share only the counter of the layer
-- store. Pauses and timeouts are left out, but for the result that a timeout has.
pub mod Common
pub mod Steps
pub mod Text
pub mod External
pub mod Signature
pub mod Ocicrypt
pub mod EventLog
pub mod ResourceUri
pub mod Auth
pub mod Kbs
pub mod Pull
pub mod LayerStore
pub mod Decrypt
pub mod Symmetric
pub mod Hub
pub mod KeyProvider
