-- ===== src/Lib.antt =====
-- The browser programs of the cmoon repository, modelled and verified part by part. This library
-- covers the live chat of bomdoo.com as its operators and its visitors see it, and the bar that leads
-- from page to page in the lists of the sites, the check of form fields, the car pool with its
-- search, its robot and the review of plans, and the forms and comments of the sites.
--
-- Program parts and files. The operator's console, pop/fly/js/ape/app/bmoon.chatb.js, keeps the list
-- of visitors (the tabs below `#im-users`), one box of messages per visitor, who is on line, how
-- many pages of older messages were loaded, and the pipe of the client library over which the
-- current visitor is reached. The client library calls its handlers through livecsb.js; the page
-- pop/tpl/oms/oms.html and pop/fly/js/oms/oms.js start it and ask for older messages on scrolling.
--
-- - Roster.antt: the list of visitors. A tab is a list of nodes; `_nodeUser` is `node_user`,
--   `postUserDirty` is `post_user_dirty`. Below it: Roster/Nodes and Roster/Membership (which nodes
--   there are), Roster/Scan and Roster/Order (where they stand), Roster/Changes (the nodes after
--   `_nodeUser` and after a change of one).
-- - Chat.antt: what both chat scripts share. Chat/Uri is `decodeURIComponent` of the language, with
--   its exception; Chat/Tags the filter of `_strAction`; Chat/Render `_strAction` and `_strMsg`.
-- - Console.antt: the state of `bmoon.chat` and the small operations on it. Console/Messages and
--   Console/Events have the handlers, a function from a console to a console each, with the way it
--   ends where it can throw: in the first `msgSend` is `msg_send`, its timer `restore_stat`,
--   `getMessage` is `get_message` and the callback of its request `on_messages`; in the second
--   `openChat` is `open_chat`, and `dearUsers`, `userOn`, `userOff`, `onData`, `onRecently`,
--   `onready`, `needMoreAdmin` and `judgeReady` alike. `soundRemind` is in Console.antt. Console/Run
--   has the events of a session in any order. The proofs are in Console/Sending, Console/Leaving,
--   Console/Same, Console/History, Console/Pages, Console/Focus, Console/Keeps and Console/Opening.
-- - Paging.antt: `mnnav` of lib/js/jquery.mnnav.js, where `gotoPage` is `goto_page`, the links of
--   `navCenter` and `navRight` are `link_rel` and a click on one is `click`. Paging/Numerals has
--   `parseInt` of the language, Paging/Moves the proofs. Paging/Jump is the older bar of
--   lib/js/jquery.mnpagenav.js, where the click of `pageJump` is `jump`; its proofs are in
--   Paging/Marks.
-- - Box.antt: the visitor's chat box, pop/fly/js/ape/app/bmoon.chat.js: the parts that are shown and
--   their handlers, where `initUI` is `init_ui`, `openChat` `open_chat`, `closeChat` `close_chat`, and
--   the unnamed handlers of `o.miner` and `o.min` are `minimise` and `restore`. Box/Talk has `msgSend`,
--   `adminOn`, `adminOff`, `onData`, `onRecently` and `soundRemind`. The proofs are in Box/Parts,
--   Box/Handlers, Box/Kept, Box/Gone, Box/Unread and Box/Sending.
-- - Visit.antt: the visitor's connection, pop/fly/js/ape/app/livecs.js: `createUser`, `deleteUser`,
--   `pipeCreate`, `rawLcsRecently` and `rawLcsData`, which call the box. Visit/Run has the events in
--   any order, Visit/Presence the account of who is on line, Visit/Start the cookies.
-- - Link.antt: the operator's connection, pop/fly/js/ape/app/livecsb.js: `createUser`, `deleteUser`,
--   `pipeCreate`, `rawLcsRecently` and `rawLcsData`, which call the console. Link/Presence has the
--   account of who is on line for the operator, Link/Keeping what the handlers leave of it.
-- - Member.antt: dida/fly/js/bmoon.dida.js: `loginCheck`, `login` and `logout`, and of the lookup of a
--   city the loop of `getCityByGeoresult`. Member/Cities has that loop's proof, Member/Login the
--   events of a page. The fuel of the loop is one more than the number of components.
--   Member/Points has `dbpoint2ll` and `dbbox2ll`, and Member/Points/Reading what they read.
-- - Search.antt: the car pool search, dida/fly/js/index.js: `matchPlan` is `match_plan` and, for its
--   answer, `on_match`; `rendPlan` and `rendMatch` alike. Search/Cards has what `rendMatch`
--   shows of a plan, Search/Making `upPlan`, `rendDirect` and
--   `leavePlan` with their callbacks, Search/Run the events in any order. The proofs are in
--   Search/Shown, Search/Kept, Search/Pager and Search/Asked.
-- - Forms.antt: what forms show and send: `memberCheck` and `memberAdd` of
--   dida/fly/js/member/regist.js, `appCheck` and `appAdd` of pop/fly/js/app/new.js, and `appReset` of
--   pop/fly/js/app/reset.js. Forms/Pass is dida/fly/js/member/pass.js and pop/fly/js/app/pass.js,
--   Forms/Articles dida/fly/js/bore/op.js and pop/fly/js/blog/op.js, Forms/Users
--   pop/fly/js/oms/users.js and pop/fly/js/oms/edit.js, each with its proofs; those on accounts are in
--   Forms/Adding and Forms/Racing.
-- - Kol.antt: the start of the chat on a visited site, pop/fly/js/bmoon.kol.js: `_execAfter` is
--   `exec_after` and, for its timer, `tick`; `init` and `onready` alike. The proofs are in Kol/Polling
--   and Kol/Scripts.
-- - Comments.antt: the comments of an article, dida/fly/js/bore/bore.js: `getComment` is `get_comment`
--   and, for its answer, `on_comments`; `addComment` alike. Comments/Fetching has the proofs.
-- - Util.antt: `stripHTML` and `after` of lib/js/bmoon.js; a call of `after` is `after`, and those that
--   its timers make are `calls`. Util/Escaping and Util/Waiting have the proofs.
-- - Robot.antt: the car pool robot, dida/fly/js/admin/spd/robot.js, with `getCityByPoi` of
--   dida/fly/js/bmoon.dida.js: `parsePlan` is `parse_plan` and, for its callbacks, `answer`;
--   `parsePlanErr` is `parse_plan_err`. Robot/Queue has `getPlans` and the timers. The proofs are in
--   Robot/Order, Robot/Saved, Robot/Posts and Robot/Queue.
-- - Review.antt: the review of car pool plans, dida/fly/js/admin/spd/post.js: `getPlan` is `get_plan`
--   and, for its answer, `on_plan`; `upPlan`, `delPlan` and `savePlan` alike, with `on_posted` for the
--   answer to a post and `on_city` for that to the lookup of a city. Review/Posts has the events in
--   any order, Review/Left what the number of plans and one plan take over.
-- - Spider.antt: the scripts that read other sites, dida/fly/js/admin/spd/58.js, ganji.js, edeng.js and
--   liebiao.js: `onready` with its expressions, and what the four differ in as a `Site`.
--   Spider/Listing is `parseList`, as `parse_list` and, for its answer, `on_told`, with the proofs in
--   Spider/Listing/Opening; Spider/Plans is `parseNode` of the first three, from the texts that its
--   expressions find on a page, with the proofs for 58 in Spider/Plans/Reading.
-- - Bill.antt: the bills of the operators, pop/fly/js/oms/bill.js, over Paging: `turnPage` is
--   `turn_page` and, for its answer, `on_bills`. The proofs are in Bill/Turning.
-- - Scroll.antt: pages that are loaded by scrolling, lib/js/jquery.mnscrollpage.js: the handler is
--   `scrolled`. The proofs are in Scroll/Loading.
-- - Stats.antt: the plots of the visits, pop/fly/js/oms/stat.js and pop/fly/js/okol/okol.js:
--   `plotOver` of the first and `flotOver` of the second are `plot_over` with the text of each, and
--   the callback of `getStat` is `on_stat`. The proofs are in Stats/Hovering.
-- - Table.antt: tables of rows, lib/js/jquery.mntable.js: `makeHead`, `makeSpecRow` and `makeRows` are
--   `make_head`, `make_spec_row` and `make_rows`. The proofs are in Table/Making.
-- - Rock.antt: the answers to the pages of memorypark, memorypark/rock/fly/js/local/util.js, and over
--   Table the list of memorypark/rock/pager/admin/file/file.js: `showFile` is `show_file` and, for its
--   answer, `on_files`. The proofs are in Rock/Listing and Rock/Login.
-- - Pos.antt: the points of the cities, dida/fly/js/admin/pos.js: `getPos` is `get_pos`. Pos/Asking has
--   the proof.
-- - Thread.antt: comments with their replies, lib/js/jquery.mncomment.js: `makeComment` is
--   `make_comment`, a click on a link to reply `reply`. The proofs are in Thread/Replies.
-- - Oms.antt: the page of the operators, pop/fly/js/oms/oms.js, with `ie` of lib/js/bmoon.js:
--   `onready` is `on_appinfo` and `show_hint`, `removeCamer` `remove_camer`. The proofs are in Oms/Hint.
-- - Search/Subscribing: the boxes of dida/fly/js/index.js that subscribe to a line, over Member.
-- - Robot/Google: the car pool robot over the other map service, dida/fly/js/admin/spd/robot-g.js, with
--   `getCityByGeoresult`: the callback of `geocode` is `on_geocoded`.
-- - Query.antt: `getQueryString` of lib/js/bmoon.js. The proofs are in Query/Address and Query/Lookup.
-- - Lcs.antt: the login of the pages of bomdoo.com, pop/fly/js/bmoon.lcs.js, over Query: `loginCheck` is
--   `login_check`, and the callback of `login` `on_login`. Lcs/Leaving has the proofs.
-- - Demo.antt: the page where a chat is tried out, pop/fly/js/demo.js: `changePosVup` is
--   `change_pos_vup`, and `appCheck`, `changePlugin` and `changePos` alike. The proofs are in
--   Demo/Place and Demo/Stepping, over Paging/Numerals/Signed.
-- - Fields.antt: the check of form fields, lib/js/jquery.mninpval.js: `inputval`, `reportErr` and the
--   patterns. Fields/Matching is `RegExp.test` of the language, by derivatives; the proofs are in
--   Fields/Patterns, Fields/Verdict and Fields/Dates.
-- - Base.antt: tests, lists, texts and dictionaries that the other files share.
--
-- Conventions. A text that is printed or measured is a list of UTF-16 code units, a name that is
-- only compared a `String`. Ids are unique in the page, so that a node is found by its visitor's
-- name, and names hold no character that a jQuery selector treats specially. Time of day is an
-- argument. Timers, requests and their answers are events of their own, in any order. `getPipe` of
-- the client library is a parameter of `open_chat`, `user_on`, `create_user` and `run`, and so is `callRaw` of
-- `on_messages`; nothing is assumed of either, but `run` and Console/History take for `callRaw` the
-- handlers `onRecently` and `onData` that livecsb.js registers. Points of the map and their distance
-- `earthDis`, which is made of floating-point numbers, are parameters of the robot, of the review and
-- of the search, and so are the `md5` plugin of the forms, `parseFloat` of the boxes, `$.trim` of the
-- spiders and the day that `Date` makes of a number of the plots. The verdict of `inputval` is an
-- argument of the forms, which Fields models. All loops are structural; the fuel of
-- `decimal` is one more than the number, of which every round takes a digit, and the calls of `after`
-- are as many as conditions are given, with a proof of how many are enough.
--
-- Not modelled: animations, focus, the width of the page, the layout of the list in the scrolling
-- plugin beyond its tabs; the position of the visitor's box, and its first markup; `debug`, which
-- does nothing; the map of the car pool with its markers, info windows and zoom; the upload of images;
-- what else `bmoon.utl` reads of the browser, and its random names; the expressions of the spiders over the
-- markup of a page, and the size of a car, which they only log; all other scripts of the repository, and its third-party libraries.
pub mod Base
pub mod Roster
pub mod Paging
pub mod Chat
pub mod Console
pub mod Box
pub mod Visit
pub mod Kol
pub mod Review
pub mod Search
pub mod Robot
pub mod Fields
pub mod Forms
pub mod Comments
pub mod Link
pub mod Member
pub mod Spider
pub mod Bill
pub mod Scroll
pub mod Stats
pub mod Table
pub mod Rock
pub mod Pos
pub mod Thread
pub mod Oms
pub mod Demo
pub mod Lcs
pub mod Query
pub mod Util
