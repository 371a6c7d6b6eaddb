-- ===== src/Thread.antt =====
-- Comments with their replies, lib/js/jquery.mncomment.js. The page holds the comments as a list, of
-- which each is in the contents of its parent; 0 is the id of the whole.
pub mod Replies
mod Examples
use cmoon.Base.{
  ℕ, zero, suc, Bool, true, false, ◌||◌, List, [], ◌∷◌, ◌++◌, Option, none, some, ◌==◌,
  if◌then◌else◌, Text, units,
}

-- The numbers of a comment past `parseInt`, and its texts.
pub record Comment : Type 0 where
  pub id : ℕ
  pub pid : ℕ
  pub zid : ℕ
  pub sn : Text
  pub uname : Text
  pub content : Text
  pub intime : Text

pub record Item : Type 0 where
  pub comment : Comment
  pub cls : Text
  pub serial : Text

-- `retobj` with its number, and the fields `#pid` and `#zid` of the form of a reply.
pub record Thread : Type 0 where
  pub items : List Item
  pub num : ℕ
  pub pid : ℕ
  pub zid : ℕ

-- There is an element with the id `cmt_content_` and the number.
abbrev pub has_content : ℕ → List Item → Bool
has_content i [] = i == 0
has_content i (t ∷ ts) = (t.comment.id == i) || has_content i ts

abbrev pub serial_of : Comment → Text
unfolding units
serial_of c =
    if c.pid == 0 then units "<span class='cmtSerial'>" ++ (c.sn ++ units "</span>") else []

abbrev pub item_of : Comment → Item
unfolding units serial_of
item_of c = record {
  comment = c;
  cls = if c.pid == 0 then units "cmtLevel0" else units "cmtChild";
  serial = serial_of c;
}

-- `makeComment` for one: without its parent it is in no document, and is counted all the same.
unfoldable pub make_one : Comment → Thread → Thread
unfolding item_of
make_one c t = record t {
  items = if has_content c.pid t.items then t.items ++ item_of c ∷ [] else t.items;
  num = suc t.num;
}

-- `makeComment`
unfoldable pub make_comment : List Comment → Thread → Thread
unfolding make_one
make_comment [] t = t
make_comment (c ∷ cs) t = make_comment cs (make_one c t)

-- `mncomment`, with the form as it is.
unfoldable pub mncomment : List Comment → ℕ → ℕ → Thread
unfolding make_comment
mncomment cs p z = make_comment cs (record { items = []; num = 0; pid = p; zid = z })

-- A click on the link to reply to a comment.
unfoldable pub reply : Comment → Thread → Thread
reply c t = record t { pid = c.id; zid = if c.zid == 0 then c.id else c.zid }
