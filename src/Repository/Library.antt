-- ===== src/Repository/Library.antt =====
-- What the repository crate takes from other crates to read and write texts: `regex`, `serde_json` and
-- `hex`. They are parameters of the model.
use Prim.Native.String.{String}
use simperby.Base.{ℕ, ◌≡◌, Option, some}
use simperby.Core.Types.{Agenda, AgendaProof, BlockHeader, ExtraAgendaTransaction, Hash256}
use simperby.Repository.Types.{LastFinalizationProof}

-- `serde_spb::to_string` and `serde_spb::from_str` at one type, without the text of an error.
pub record Codec (A : Type 0) : Type 0 where
  pub to_string : A → Option String
  pub from_str : String → Option A

-- What a group of the pattern has matched, if it took part in the match.
abbrev pub Groups : Type 0
Groups = ℕ → Option String

pub record Library : Type 0 where
  -- `Regex::new(pattern).unwrap().captures(text)`.
  pub captures : String → String → Option Groups
  pub agenda_json : Codec Agenda
  pub block_json : Codec BlockHeader
  pub agenda_proof_json : Codec AgendaProof
  pub extra_json : Codec ExtraAgendaTransaction
  pub fp_json : Codec LastFinalizationProof
  -- `Hash256::to_string`.
  pub hash_text : Hash256 → String

-- The value is written as the text, and read back from it.
abbrev pub Encodes : {A : Type 0} → Codec A → A → String → Type 0
Encodes codec a text = (codec.to_string a ≡ some text) × (codec.from_str text ≡ some a)
