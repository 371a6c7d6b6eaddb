-- ===== src/Search/Cards.antt =====
-- What the page shows of a plan that was found, `rendMatch` of dida/fly/js/index.js behind its links,
-- with the sites of `odomain` of dida/fly/js/bmoon.dida.js.
use cmoon.Base.{
  ℕ, [], ◌∷◌, ◌++◌, Option, none, some, ◌==◌, if◌then◌else◌, Text, units, Exit, finished,
  type_error, ◌>>=◌,
}

-- A plan as the answer has it. `ori` is the number of the site that it is from, 0 for this one.
pub record Found : Type 0 where
  pub id : ℕ
  pub rect : Text
  pub nick : Text
  pub attach : Text
  pub saddr : Text
  pub eaddr : Text
  pub repeat : ℕ
  pub sdate : Text
  pub stime : Text
  pub ori : ℕ
  pub ourl : Text

-- The texts, the plan that the link leads to, the link to the site that the plan is from with its
-- image, and the plans whose images of the telephone and of the contact are shown.
pub record Card : Type 0 where
  pub nick : Text
  pub attach : Text
  pub saddr : Text
  pub eaddr : Text
  pub sdate : Text
  pub stime : Text
  pub plan_id : ℕ
  pub from_href : Text
  pub from_title : Text
  pub from_img : Option Text
  pub phone_id : ℕ
  pub contact_id : ℕ

pub record Domain : Type 0 where
  pub url : Text
  pub img : Text
  pub title : Text

-- `odomain`
unfoldable pub odomain : ℕ → Option Domain
odomain ori =
    if ori == 1
    then some (record {
      url = units "http://www.58.com";
      img = units "/img/logo/58.gif";
      title = units "58同城";
    })
    else if ori == 2
    then some (record {
      url = units "http://www.ganji.com";
      img = units "/img/logo/ganji.png";
      title = units "赶集网";
    })
    else if ori == 3
    then some (record {
      url = units "http://www.edeng.cn";
      img = units "/img/logo/edeng.jpg";
      title = units "易登网";
    })
    else if ori == 4
    then some (record {
      url = units "http://www.liebiao.com";
      img = units "/img/logo/liebiao.png";
      title = units "列表网";
    })
    else none

abbrev pub sdate_text : ℕ → Text → Text
sdate_text r s = if r == 1 then units "每日" else if r == 2 then units "每周 " ++ s else s

abbrev pub put_texts : Found → Card → Card
put_texts f c = record c {
  nick = f.nick;
  attach = f.attach;
  saddr = f.saddr;
  eaddr = f.eaddr;
  sdate = sdate_text f.repeat f.sdate;
  stime = f.stime;
  plan_id = f.id;
  from_img = none;
}

abbrev pub title_text : Domain → Text
title_text d = units "数据来源：" ++ 0x3000 ∷ d.title

-- The link to a site; a number that is not in the table has no `url` and no `title` to read.
abbrev pub put_from : Text → Option Domain → Card → Card × Exit
put_from [] none c = (c, type_error)
put_from (u ∷ us) none c = (record c { from_href = u ∷ us }, type_error)
put_from [] (some d) c =
    (record c { from_href = d.url; from_title = title_text d; from_img = some d.img }, finished)
put_from (u ∷ us) (some d) c =
    (record c { from_href = u ∷ us; from_title = title_text d; from_img = some d.img }, finished)

unfoldable pub put_source : Found → Card → Card × Exit
unfolding odomain
put_source f c = if f.ori == 0 then (c, finished) else put_from f.ourl (odomain f.ori) c

unfoldable pub rend_card : Found → Card → Card × Exit
unfolding put_source
rend_card f c = put_source f (put_texts f c) >>= λ d.
    (record d { phone_id = f.id; contact_id = f.id }, finished)
