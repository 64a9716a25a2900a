-- ===== src/Serialization/RoundTrip.antt =====
-- What a serializer writes is read back.
use gpf.Prelude.{String, true, ◌≡◌, refl, some, pos}
use gpf.Serialization.{
  loaded, BoostArchive, ProtobufMessage, code, ArchiveTypeTraits, text_archive, binary_archive,
  protobuf_archive, call,
}

module _ {T : Type 0} where
  -- What an archive writes, it reads back, whatever the message was before.
  abbrev pub Faithful : BoostArchive T → Type 0
  Faithful archive =
      (msg : T) (s : String)
      → archive.write msg ≡ some s
      → (before : T) → archive.read before s ≡ loaded msg

  -- The methods of protobuf write an initialized message and read it back, whatever the text and the
  -- message were before.
  abbrev pub Parsing : (T → Type 0) → ProtobufMessage T → Type 0
  Parsing IsInitialized m =
      (msg : T)
      → IsInitialized msg
      → (before : T) (s : String)
      → ((m.serialize_to_string msg s).0 ≡ true)
        × (m.parse_from_string before (m.serialize_to_string msg s).1 ≡ (true, msg))

  -- A serializer reads back what it wrote: it writes a text, and reading the text gives the code 0 and
  -- the message.
  abbrev pub ReadsBack : ArchiveTypeTraits T → T → Type 0
  ReadsBack traits msg =
      (s : String) × (call traits msg ≡ some s)
      × ((before : T) → traits.deserialize before s ≡ code (pos 0) msg)

  -- The serializer of protobuf reads back an initialized message.
  pub ReadsBack-protobuf_archive :
      (IsInitialized : T → Type 0) (protobuf : ProtobufMessage T)
      → Parsing IsInitialized protobuf
      → (msg : T) → IsInitialized msg
      → ReadsBack (protobuf_archive protobuf) msg
  unfolding protobuf_archive call
  ReadsBack-protobuf_archive IsInitialized protobuf parsing msg initialized = (
    (protobuf.serialize_to_string msg "").1,
    refl,
    λ before. rw (parsing msg initialized before "").1 refl,
  )

  module _ (text binary : BoostArchive T) (protobuf : ProtobufMessage T)
      (text_faithful : Faithful text) (binary_faithful : Faithful binary)
      (IsInitialized : T → Type 0) (parsing : Parsing IsInitialized protobuf) where
    -- With archives that read back what they write: a message that the text archive and the binary one
    -- can write and that is initialized for protobuf is read back by each of the three serializers,
    -- whatever the message that is overwritten was before.
    pub deserialize-call :
        (msg : T) (t b : String)
        → text.write msg ≡ some t
        → binary.write msg ≡ some b
        → IsInitialized msg
        → ReadsBack (text_archive text) msg
          × ReadsBack (binary_archive binary) msg
          × ReadsBack (protobuf_archive protobuf) msg
    unfolding text_archive binary_archive protobuf_archive call
    deserialize-call msg t b text_writes binary_writes initialized = (
      (t, text_writes, λ before. rw (text_faithful msg t text_writes before) refl),
      (b, binary_writes, λ before. rw (binary_faithful msg b binary_writes before) refl),
      ReadsBack-protobuf_archive IsInitialized protobuf parsing msg initialized,
    )
