-- ===== src/Rock.antt =====
-- The answers to the pages of memorypark/rock, memorypark/rock/fly/js/local/util.js, and the lists of
-- files and of members, memorypark/rock/pager/admin/file/file.js and group/group.js.
pub mod Listing
pub mod Login
mod Examples
use cmoon.Base.{
  Bool, true, false, List, [], ◌∷◌, ◌++◌, Option, none, some, String, if◌then◌else◌, Text, text_eq,
  units, Exit, finished, uri_error, type_error, ℕ,
}
use cmoon.Table.{Row, Cell, Head, label, labelled, Heads, named, Table, mntable}

-- `document.loginopts`
pub record LoginOpts : Type 0 where
  pub title : Text
  pub rurl : Text

pub record Page : Type 0 where
  pub alerts : List Text
  pub login_opts : Option LoginOpts
  pub title_text : Text
  pub rurl_text : Text
  pub gone : List Text

-- The options of `jsonCbkSuc`.
pub record CbkOpts : Type 0 where
  pub suctip : Bool
  pub errmsg : Text
  pub rurl : Text

-- What is read of an answer; `errmsg` is empty where there is none.
pub record Answer : Type 0 where
  pub success : Text
  pub errmsg : Text

pub data End : Type 0 where
  returned : Bool → End
  thrown : End

abbrev pub or_text : Text → Text → Text
or_text [] s = s
or_text (c ∷ t) s = c ∷ t

-- The message of an operation that wants a login.
abbrev pub sensitive : Text
unfolding units
sensitive = units "敏感操作, 请先登录"

abbrev pub alert : Text → Page → Page
alert t p = record p { alerts = p.alerts ++ t ∷ [] }

-- `jsonCbkSuc`; `overlay_login` is local to another script, so that it throws there.
unfoldable pub json_cbk_suc : CbkOpts → Answer → Page → Page × End
unfolding sensitive units
json_cbk_suc o d p =
    if text_eq d.success (units "1")
    then (if o.suctip then alert (units "操作成功!") p else p, returned true)
    else if text_eq d.errmsg sensitive
    then (record p { login_opts = some (record { title = d.errmsg; rurl = o.rurl }) }, thrown)
    else (alert (or_text d.errmsg o.errmsg) p, returned false)

abbrev pub title_of : Text → LoginOpts → Page → Page
unfolding units
title_of [] l p = p
title_of (c ∷ t) l p = record p {
  title_text = c ∷ t;
  login_opts = some (record l { title = units "登录 EOL" });
}

abbrev pub rurl_of : Text → Page → Page
rurl_of [] p = p
rurl_of (c ∷ t) p = record p { rurl_text = c ∷ t }

abbrev pub titled : Option LoginOpts → Page → Page
unfolding title_of
titled none p = p
titled (some l) p = rurl_of l.rurl (title_of l.title l p)

-- `modifyTitle`
unfoldable pub modify_title : Page → Page
unfolding titled
modify_title p = titled p.login_opts p

abbrev pub jump_to : Text → LoginOpts → Page → Page
jump_to [] l p = p
jump_to (c ∷ t) l p = record p {
  gone = p.gone ++ (c ∷ t) ∷ [];
  login_opts = some (record l { rurl = [] });
}

abbrev pub jumped : Option LoginOpts → Page → Page
jumped none p = p
jumped (some l) p = jump_to l.rurl l p

-- `jumpToRurl`
unfoldable pub jump_to_rurl : Page → Page
jump_to_rurl p = jumped p.login_opts p

-- The function of the column `_delete`: it puts its cell into the row and returns nothing.
abbrev pub delete_cell : Row → List Cell × Option Text
unfolding units
delete_cell row = ((none, units "删除") ∷ [], none)

abbrev pub file_heads : Heads
unfolding units delete_cell
file_heads = named (
    ("id", label (units "ID"))
    ∷ ("pid", label (units "父ID"))
    ∷ ("uri", label (units "uri"))
    ∷ ("remark", label (units "名称"))
    ∷ ("uname", label (units "创建者"))
    ∷ ("intime", label (units "加入时间"))
    ∷ ("_delete", labelled (units "删除") delete_cell)
    ∷ [])

-- The list that is in the page, the number for the bar, and what was asked for.
pub record Files : Type 0 where
  pub page : Page
  pub shown : Option Table
  pub ttnum : Option ℕ
  pub asked : List (ℕ × Text)

-- The answer to `showFile`.
pub record FileAnswer : Type 0 where
  pub head : Answer
  pub files : List Row
  pub ttnum : ℕ

-- `showFile`, with the value of the field `#querypid`.
unfoldable pub show_file : ℕ → Text → Files → Files
show_file pg pid s = record s { asked = s.asked ++ (pg, pid) ∷ [] }

-- The old list is taken away before the new one is made.
abbrev pub put_table : ℕ → Table × Exit → Files → Files
put_table n (t, finished) s = record s { shown = some t; ttnum = some n }
put_table n (t, uri_error) s = record s { shown = none }
put_table n (t, type_error) s = record s { shown = none }

abbrev pub list_files : FileAnswer → Page × End → Files → Files
unfolding mntable file_heads
list_files a (p, returned true) s =
    put_table a.ttnum (mntable file_heads a.files) (record s { page = p })
list_files a (p, returned false) s = record s { page = p }
list_files a (p, thrown) s = record s { page = p }

abbrev pub file_opts : CbkOpts
unfolding units
file_opts = record { suctip = true; errmsg = units "获取文件列表失败!"; rurl = units "/admin/file.html" }

-- The callback of `showFile`.
unfoldable pub on_files : FileAnswer → Files → Files
unfolding list_files json_cbk_suc file_opts
on_files a s = list_files a (json_cbk_suc file_opts a.head s.page) s
