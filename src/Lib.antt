-- ===== src/Lib.antt =====
-- blahgd is a blog daemon: it answers SCGI requests with pages that templates make out of posts,
-- which lie in files with S-expressions as their meta data.
--
-- How the parts interact. daemon.c drops its privileges, has all posts loaded and serves requests.
-- req.c selects a page and a handler for a request. The handlers (index.c, story.c, tag.c, admin.c,
-- comment.c, static.c) ask the post index (post_index.c) for posts, which post.c reads from their
-- files with the grammar (post_fmt3.y) and the commands (post_fmt3_cmds.c) of the post format, and
-- set variables (vars.c) out of the posts (post_nv.c) and the tags (sidebar.c), from which a template
-- (template.y, render.c) with conditions (parse.h) and pipelines (pipeline.c, mangle.c) renders the
-- page. config.c holds the settings, and lisplint.c checks the same files off-line.
--
-- Which module models what: Index post_index.c, with the abstract view of the index as a catalog of
-- posts in Index/Catalog and the end of the index in Index/Teardown; Post post.c and post.h, with the
-- grammar of posts in Post/Body and the files that a post is read from in Post/Sources; Load load_post of post.c with the index, the threads that call it
-- at once (Load/Race) and load_all_posts; Comment comment.c; Commands post_fmt3_cmds.c and listing.c; Format the
-- actions of post_fmt3.y; Mangle mangle.c; Pipeline pipeline.c and what template.y does with a
-- pipeline; Template template.y and render.c; Utils utils.c; Static static.c; Request req.c, with
-- the log of requests in Request/Log and the last headers in Request/Output; Pages the answers of
-- req.c and the handlers of index.c, tag.c, story.c, comment.c and admin.c; Archive the choice of
-- posts in index.c; PostVars post_nv.c; Sidebar sidebar.c; Vars vars.c; Cond parse.h; Config
-- config.c; Lint lisplint.c, with its command line in Lint/Main; Daemon daemon.c. A function of the
-- source has the name of its definition, less the underscores that it begins with; where a name
-- differs, a comment at the definition says so. The state of a file is a record, a function that
-- changes it returns the new one, and a failed assertion is a value (panic, or none). Extern holds
-- the interfaces to libjeffpc as records of operations with their documented behaviour: red-black
-- trees (Rb), name-value lists (Nvl), queries (Query), association lists (Alist). The file system,
-- the clock, the C library's time functions and the floating-point numbers are arguments. Calls that
-- may fail take their results from a list that is part of the state.
--
-- Bounds. The search in the table of 30 commands has fuel 6, since each round halves the range;
-- numbers are printed with at most 20 digits, enough for 64 bits; path names are cut off by snprintf
-- to FILENAME_MAX (4096) bytes with their terminator. Counters and products of machine integers are
-- taken modulo their width; the numbers of posts in the tag cloud are taken to fit an int. Templates
-- that include one another have fuel for the depth of the inclusions: the code does not bound it,
-- either; where a rank bounds the inclusions, that much fuel is enough. All other loops run over
-- lists or over the tree that a post is.
--
-- Not modelled: reference counts but those of a comment's strings, of a log entry and of the posts in
-- the index; locks and tasks but for two loads of one post; the scanners and parsers that are
-- generated (template.l, template.y, post_fmt3.l, post_fmt3.y), whose results are parameters; the
-- composition of the handlers with the rendering: to them a page is its template's name and its
-- variables; what load_posts changes in the posts that it reads again; the messages of the daemon
-- (error.c) and the program test_fmt3.c, which only read and print.
pub mod Archive
pub mod Commands
pub mod Comment
pub mod Cond
pub mod Config
pub mod Daemon
pub mod Extern
pub mod Format
pub mod Index
pub mod Lint
pub mod Load
pub mod Mangle
pub mod Pages
pub mod Pipeline
pub mod Post
pub mod PostVars
pub mod Prelude
pub mod Request
pub mod Sidebar
pub mod Static
pub mod Template
pub mod Utils
pub mod Vars
