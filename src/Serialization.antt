-- ===== src/Serialization.antt =====
-- gpf/serialization.hpp and gpf/serialization/{text,binary,protobuf}.hpp: the class template
-- `serializer` over the three archives. What Boost's archives and a message's methods of protobuf do is a
-- parameter. `T` is the type of the messages.
pub mod RoundTrip
use gpf.Prelude.{zero, suc, none, String, Bool, Option, some, ℤ, pos, negsuc, if◌then◌else◌}

-- How reading from an archive ends. Boost leaves what it has read so far in the message.
pub data Loaded (T : Type 0) : Type 0 where
  loaded : T → Loaded T
  archive_exception : T → Loaded T
  other_exception : Loaded T

-- `boost::archive::text_oarchive` and `text_iarchive`, or those of `binary_archive`, over a stream of
-- the whole text; `write` is `none` when it throws.
pub record BoostArchive (T : Type 0) : Type 0 where
  pub write : T → Option String
  pub read : T → String → Loaded T

-- The methods `SerializeToString` and `ParseFromString` of `google::protobuf::Message`; they return
-- whether they succeeded, and what is then in the text or in the message.
pub record ProtobufMessage (T : Type 0) : Type 0 where
  pub serialize_to_string : T → String → Bool × String
  pub parse_from_string : T → String → Bool × T

-- How `deserialize` ends.
pub data Deserialized (T : Type 0) : Type 0 where
  code : ℤ → T → Deserialized T
  thrown : Deserialized T

-- `archive_type_traits<atype>`: `serialize` is given the text that it overwrites, and is `none` when it
-- throws; `deserialize` is given the message that it overwrites.
pub record ArchiveTypeTraits (T : Type 0) : Type 0 where
  pub serialize : String → T → Option String
  pub deserialize : T → String → Deserialized T

module _ {T : Type 0} where
  abbrev catch : Loaded T → Deserialized T
  catch (loaded msg) = code (pos 0) msg
  catch (archive_exception msg) = code (negsuc 0) msg
  catch other_exception = thrown

  unfoldable pub text_archive : BoostArchive T → ArchiveTypeTraits T
  text_archive archive = record {
    serialize = λ s msg. archive.write msg;
    deserialize = λ msg s. catch (archive.read msg s);
  }

  unfoldable pub binary_archive : BoostArchive T → ArchiveTypeTraits T
  binary_archive archive = record {
    serialize = λ s msg. archive.write msg;
    deserialize = λ msg s. catch (archive.read msg s);
  }

  -- The result of `SerializeToString` is not looked at.
  unfoldable pub protobuf_archive : ProtobufMessage T → ArchiveTypeTraits T
  protobuf_archive m = record {
    serialize = λ s msg. some (m.serialize_to_string msg s).1;
    deserialize = λ msg s.
        let (parsed, msg') = m.parse_from_string msg s in
        code (if parsed then pos 0 else negsuc 0) msg';
  }

  -- `serializer::operator()`.
  unfoldable pub call : ArchiveTypeTraits T → T → Option String
  call traits msg = traits.serialize "" msg

  -- What a program that tests `deserialize` for 0 goes on with.
  abbrev pub accepted : Deserialized T → Option T
  accepted (code (pos zero) msg) = some msg
  accepted (code (pos (suc n)) msg) = none
  accepted (code (negsuc n) msg) = none
  accepted thrown = none
