-- ===== src/Lib.antt =====
-- A model of go-shortvideo, a short video service, and the theorems that hold of it.
--
-- The service keeps accounts, videos, likes, comments and follow relations in a store, and shows a
-- user the videos of those whom they follow. internal/store is a struct of maps under one lock or,
-- where there is a database, MySQL. internal/feed is the following feed over Redis: a worker pushes
-- a published video into the inboxes of the followers, page by page over the follower list of
-- internal/relation; a read merges the reader's inbox with the outboxes of the large accounts that
-- they follow. internal/like keeps likes in Redis: a set of videos for each user is the gate, and a
-- counter per video is written directly or by an aggregator that collects deltas and flushes them.
-- internal/rec ranks candidates from several pools, filters and reranks them, and cuts a page.
-- internal/api answers HTTP requests with these services, behind the tokens of internal/auth.
-- pkg/security counts failed logins and refuses a client that has too many; pkg/ratelimit refuses a
-- client that asks too often. pkg/mq carries messages to workers, gives back those that a worker
-- refuses, and puts them among the dead letters in the end. internal/transcode makes the resolutions
-- of an uploaded video and moves its status; internal/relation says which accounts are large.
--
-- Which file models which part:
--   Model.antt          internal/model/model.go: the records.
--   Store/State.antt    the struct `Store`, `New` and the errors of internal/store/store.go.
--   Store/Users.antt    CreateUser, GetUser, GetUserByUsername, AuthenticateUser.
--   Store/Videos.antt   CreateVideo, GetVideo, UpdateVideoStatus, UpdateVideoPlayback(URLs).
--   Store/Likes.antt    Like, Unlike, HasLiked, BatchHasLiked.
--   Store/Comments.antt AddComment, ListComments.
--   Store/Follows.antt  Follow, Unfollow, FollowStats, ListFollowees, ListFollowers.
--   Store/Lists.antt    ListVideos, ListUserVideos, FollowingFeed and their helpers, and the cursor
--                       of writeFeed of internal/api/video.go.
--   Store/Mysql.antt, Store/Mysql/Lists.antt, Store/Mysql/Accounts.antt  the branches of GetUser, Follow,
--                       Unfollow, the lists of followers and followees, CreateUser and
--                       GetUserByUsername for a store with a database.
--   Store/Calls.antt    a run of the store: its writing operations in any order.
--   Feed/Timeline.antt  internal/feed/store.go, and Redis as a parameter.
--   Feed/Fanout.antt    internal/feed/fanout.go, and ListFollowers of internal/relation/mem_repo.go.
--   Feed/Read.antt      internal/feed/read.go, over sorted sets as a parameter.
--   Feed/Merge.antt     mergeDedupe of internal/feed/service.go.
--   Feed/Service.antt   GetFollowingFeed of internal/feed/service.go, and internal/feed/pull.go.
--   Like/Redis.antt     the Redis commands of internal/like, as a parameter.
--   Like/Service.antt   internal/like/service.go, and Count of internal/like/read.go.
--   Like/Aggregator.antt  flush of internal/like/aggregator.go, in two steps.
--   Like/Reconcile.antt  syncVideo of internal/like/reconcile.go.
--   Like/Calls.antt     a history of the like service with its aggregator.
--   Rec/Scorer.antt, Rec/Filter.antt  internal/rec/scorer.go and filter.go.
--   Rec/Service.antt    GetRecommendFeed of internal/rec/service.go, and internal/rec/recall.go. Its
--                       argument cursor, which the source only logs, is left out.
--   Security/Login.antt, Security/Guard.antt  LoginProtection of pkg/security/middleware.go and its
--                       middleware; Security/Cors.antt has the headers of answers.
--   Like/Read.antt, Like/Scan.antt  BatchIsLiked of internal/like/read.go, and the scan of reconcile.go.
--   Like/MemRepo.antt   memLikeRepo of cmd/server/main.go; Like/MysqlRepo.antt is
--                       internal/like/mysql_repo.go.
--   Rec/Pools.antt      internal/rec/store.go, and the background task of service.go.
--   Metrics/Vec, Metrics/Http  pkg/metrics/metrics.go.
--   Audit.antt          pkg/audit/audit.go.
--   Server/Settings.antt  pkg/config/config.go, and the checks of cmd/server/main.go.
--   Server/Adapters, Server/Workers  the adapters and the handlers of topics of cmd/server/main.go.
--   Like/Memory.antt    internal/like/mem_adapter.go: the store as the service for likes of the API.
--   Mq/Streams.antt     Redis streams, as a parameter of pkg/mq/mq.go, and how a field is read.
--   Mq/Bus.antt         RedisStreamBus of pkg/mq/mq.go; Mq/Channel.antt is its ChanBus.
--   RateLimit/Decimal.antt  formatInt of pkg/ratelimit/limiter.go.
--   RateLimit/Buckets.antt  Limiter and PathLimiter of that file.
--   RateLimit/Window.antt   RedisPathLimiter of that file.
--   RateLimit/Keys.antt     the functions KeyFrom... of that file.
--   Auth/Context.antt, Auth/Token.antt  internal/auth/auth.go.
--   Api/Service.antt, Api/Answer.antt   internal/api/handler.go: the state behind the handlers, the
--                       answers and the helpers.
--   Api/Likes, Comments, Users, Videos, Follows, Upload  the handlers of internal/api/like.go, comment.go,
--                       user.go, video.go with rec.go, follow.go and upload.go.
--   Api/Router.antt     internal/api/router.go.
--   Relation/Service.antt  internal/relation/service.go; Relation/MysqlRepo.antt is mysql_repo.go.
--   Transcode/Profiles.antt  the resolutions of pkg/media/transcode.go.
--   Transcode/Worker.antt  internal/transcode/worker.go; Transcode/Status.antt has the updater of
--                       cmd/server/main.go.
--   Like/Consumer.antt  internal/like/consumer.go.
--   Store/Spec.antt     what the store promises, as an abstract state.
--   Strconv.antt        ParseInt and Itoa of Go's strconv.
--   Bytes.antt          Go's strings as lists of bytes.
--   Dict, TextDict, IdSet, Sort stand for Go's maps, sets and sort.Slice; Prelude for what all share;
--   Tests for sample runs.
--
-- How state and code correspond. An operation of the store is a function from a state to a result
-- and a state; each runs under the lock from its first read to its last write, so a concurrent
-- history is a list of calls, `run`. A map is an association list in some iteration order, and
-- time, which the source reads from the clock, is an argument. Ids, counts and times that the
-- service makes are naturals; limits and cursors that a client sends are integers. An operation of
-- Go that would panic gives `none`. The loops over pages run on fuel: the walk over a list is given
-- one round more than there are videos, the fan-out one more than there are followers, and both
-- theorems state that this suffices.
--
-- A call of the like service is one step of a history; the two parts of a flush are two. Counts
-- are unbounded integers, where the source has 64 bits. A score of internal/feed is a time in
-- milliseconds and a natural; one of internal/rec is a value of any type.
--
-- A database is used by one client at a time. Its queries, statements and commits may fail at any point;
-- a commit that fails was done as a whole or not at all, and the history of calls leaves open which.
--
-- A round of the bus over Redis streams is one step, and publishing is another; a round reads a batch
-- and handles each entry. The run of a topic is given a number of rounds, and the theorem on it states
-- that the deliveries that are left for the waiting messages are enough. A handler is given its own
-- state. The attempts of a message and the numbers that are parsed are 64 bits wide. The limiters take
-- one request at a time. A request of the API is its context, the texts of its parameters, and what the
-- reading of its body gives; the rest of the state is the store, the state of the service for likes and
-- the jobs that were published. A text whose bytes the code builds or takes apart is a list of bytes.
--
-- The paths, addresses and keys of a transcoding task are texts that the model is given, since nothing
-- depends on how they are spelled.
--
-- Parameters are what the repository only calls: bcrypt (`Bcrypt`), Redis (one `Redis` for the feed
-- and one for the likes, `Timelines` and `Pools` for what is read, `Streams` for the bus, `Counters` for the limiter), MySQL (`Database` with
-- `Queries`, `Autocommit` and `Accounts`, and `LikeTables`), the token bucket (`TokenBucket`), the token
-- library (`JwtLibrary`), the stores and services behind a page (`Sources`), the arithmetic of scores
-- (`Scores`) and sort.Slice (`Sorter`), each with the documented behaviour that the code relies on.
-- A single command that is answered with an error has changed nothing; of a pipeline of increments that
-- is, any part may have been run.
--
-- Not modelled: the MySQL branches of the store for videos and comments, and Seed; HeatScore, which is
-- floating point; the calls of ffmpeg and of the object storage; the mirror of the metrics in the
-- Prometheus client; the start of the loops of the bus; the reading of the configuration; the clients;
-- the small programs of cmd/feed, cmd/like, cmd/fanout, cmd/likeworker and cmd/transcode, which repeat
-- parts of cmd/server; and the functions main, which only wire the parts together.

pub mod Prelude
pub mod Api
pub mod Audit
pub mod Auth
pub mod Bytes
pub mod Metrics
pub mod Dict
pub mod IdSet
pub mod Strconv
pub mod TextDict
pub mod Transcode
pub mod Sort
pub mod Model
pub mod Mq
pub mod Store
pub mod Feed
pub mod Like
pub mod RateLimit
pub mod Relation
pub mod Rec
pub mod Security
pub mod Server
pub mod Tests
