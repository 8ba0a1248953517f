-- ===== src/ChatMessage.antt =====
-- The messages of src/chat/src/ChatMessage.h and ChatMessage.cpp. Texts and paths are the bytes before
-- their NUL.
pub mod Ids
mod Tests
use cevent_sample.Prelude.{ℕ, List, Bool, Option, none, ℤ, Run}
use cevent_sample.Xhash.{hash_long}

pub data MessageType : Type 0 where
  type_text type_image type_voice type_image_group type_announce : MessageType

pub data MessageStatus : Type 0 where
  delivering delivered deliver_failed displayed : MessageStatus

-- `ChatMessage`
pub record Base : Type 0 where
  pub packet_id : ℕ
  pub type : MessageType
  pub ts : ℕ
  pub ts_display : Bool
  pub uid : ℤ
  pub post_by_me : Bool
  pub status : MessageStatus

-- the classes that are derived from it, with their own fields
pub data ChatMessage : Type 0 where
  text : Base → List ℕ → ChatMessage
  image : Base → (url local_file : List ℕ) → ChatMessage
  voice : Base → (url local_file : List ℕ) → ChatMessage
  image_group : Base → (urls local_files : List (List ℕ)) → (count : ℤ) → ChatMessage
  announce : Base → List ℕ → ChatMessage

-- the `packetId` that the constructor gives; `now` is what `time` answers
unfoldable pub new_packet_id : ℕ → Run ℕ
new_packet_id now = hash_long now 4

-- `serial` and `unserial` are not written yet: each answers NULL.
unfoldable pub serial : ChatMessage → Option (List ℕ)
serial (text base chars) = none
serial (image base url local_file) = none
serial (voice base url local_file) = none
serial (image_group base urls local_files count) = none
serial (announce base chars) = none

unfoldable pub unserial : MessageType → List ℕ → Option ChatMessage
unserial type_text from = none
unserial type_image from = none
unserial type_voice from = none
unserial type_image_group from = none
unserial type_announce from = none
